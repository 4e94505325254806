-- ===== src/Packages/Typed.antt =====
-- The three maps of Params, src/interface/params.hpp, stay in step.
use parthenon.Base.{
  ℕ, ◌==◌, if◌then◌else◌, Bool, true, false, Option, none, some, List, [], ◌∷◌, Result, ok, err,
  ◌≡◌, refl, ap, sym, ◌∙◌, arith, Bool-cases, Option-cases, inl, inr, ◌⊎◌,
}
use parthenon.Base.Chars.{eqb, eqb-eq}
use parthenon.Packages.Values.{
  Mutability, ParamsError, Named, find_key, assign, emplace, Object, Params, is_some, can_change,
  has_key, add_param, update, get, not_mutable, out_of_range, key_exists, key_missing, wrong_type,
}

apart_tests :
    {A : Type 0} (k key other : List ℕ) (x y : A) (rest : Option A)
    → eqb key other ≡ false
    → (if eqb k other then some x else if eqb k key then some y else rest)
      ≡ (if eqb k key then some y else if eqb k other then some x else rest)
apart_tests k key other x y rest h = elim (Bool-cases (eqb k key)) [
  | inl e ↦
      let same : k ≡ key = eqb-eq k key e in
      let off : eqb k other ≡ false = rw same h in rw (e, off) refl
  | inr e ↦ rw e refl
]

find_key-assign :
    {A : Type 0} (key k : List ℕ) (value : A) (ns : List (Named A))
    → find_key k (assign key value ns) ≡ (if eqb k key then some value else find_key k ns)
unfolding find_key assign
find_key-assign key k value [] = refl
find_key-assign key k value (n ∷ ns) = elim (Bool-cases (eqb key n.key)) [
  | inl e ↦ let same : key ≡ n.key = eqb-eq key n.key e in rw e (rw same (ground arith))
  | inr e ↦
      rw (e, find_key-assign key k value ns)
        (apart_tests k key n.key n.value value (find_key k ns) e)
]

-- The three maps have the same keys, and the type noted is that of the object.
pub record IsTyped {C : Type 0} (p : Params C) : Type 0 where
  pub type_noted :
      (key : List ℕ) (object : Object C)
      → find_key key p.my_params ≡ some object
      → find_key key p.my_types ≡ some object.type_id
  pub mutability_noted :
      (key : List ℕ) (object : Object C)
      → find_key key p.my_params ≡ some object
      → is_some (find_key key p.my_mutable) ≡ true
  pub nothing_noted :
      (key : List ℕ) → find_key key p.my_params ≡ none → find_key key p.my_types ≡ none

-- What Get is to give.
abbrev pub read_object : {C : Type 0} → ℕ → Option (Object C) → Result ParamsError C
read_object type_id none = err key_missing
read_object type_id (some object) =
    if object.type_id == type_id then ok object.content else err wrong_type

emplace-absent :
    (key : List ℕ) (t : ℕ) (ns : List (Named ℕ))
    → find_key key ns ≡ none
    → emplace key t ns ≡ assign key t ns
unfolding emplace
emplace-absent key t ns h = rw (emplace, h) refl

refused_write :
    {C P : Type 0} (f : ParamsError) (r : Result ParamsError (Params C)) (q : Params C)
    → r ≡ err f
    → r ≡ ok q
    → P
refused_write f r q h k = absurd cc

type_or : {C : Type 0} → Option (Object C) → Option ℕ
type_or none = none
type_or (some object) = some object.type_id

module _ {C : Type 0} where
  get-read_object :
      (type_id : ℕ) (key : List ℕ) (p : Params C)
      → IsTyped p
      → get type_id key p ≡ read_object type_id (find_key key p.my_params)
  unfolding get
  get-read_object type_id key p h = elim (Option-cases (find_key key p.my_params)) [
    | inl absent ↦ rw (get, absent) refl
    | inr (object, held) ↦
        rw (get, held, h.type_noted key object held)
          (elim (Bool-cases (object.type_id == type_id)) [ inl e ↦ rw e refl | inr e ↦ rw e refl ])
  ]

  -- The maps after an object is stored under a key, with its type and whether it can be changed.
  stored-IsTyped :
      (type_id : ℕ) (key : List ℕ) (content : C) (p q : Params C)
      → IsTyped p
      → q.my_params ≡ assign key (record { type_id = type_id; content = content }) p.my_params
      → ((k : List ℕ)
          → find_key k q.my_types ≡ (if eqb k key then some type_id else find_key k p.my_types))
      → ((k : List ℕ)
          → is_some (find_key k q.my_mutable)
            ≡ (if eqb k key then true else is_some (find_key k p.my_mutable)))
      → IsTyped q
  unfolding type_or
  stored-IsTyped type_id key content p q h params types mutables =
      let at = λ (k : List ℕ).
        ap (find_key k) params
        ∙ find_key-assign key k (record { type_id = type_id; content = content }) p.my_params in
      record {
        type_noted = λ k object e. elim (Bool-cases (eqb k key)) [
          | inl same ↦
              let found : some (record { type_id = type_id; content = content }) ≡ some object =
                sym (at k ∙ rw same refl) ∙ e in
              types k ∙ rw same (ap type_or found)
          | inr other ↦
              let held : find_key k p.my_params ≡ some object = sym (at k ∙ rw other refl) ∙ e in
              types k ∙ rw other (h.type_noted k object held)
        ];
        mutability_noted = λ k object e. elim (Bool-cases (eqb k key)) [
          | inl same ↦ mutables k ∙ rw same refl
          | inr other ↦
              let held : find_key k p.my_params ≡ some object = sym (at k ∙ rw other refl) ∙ e in
              mutables k ∙ rw other (h.mutability_noted k object held)
        ];
        nothing_noted = λ k e. elim (Bool-cases (eqb k key)) [
          | inl same ↦
              let found : some (record { type_id = type_id; content = content }) ≡ none =
                sym (at k ∙ rw same refl) ∙ e in
              absurd cc
          | inr other ↦
              let absent : find_key k p.my_params ≡ none = sym (at k ∙ rw other refl) ∙ e in
              types k ∙ rw other (h.nothing_noted k absent)
        ];
      }

  -- How a write changes what is stored.
  Stored : ℕ → List ℕ → C → Params C → Params C → Type 0
  Stored type_id key content p q =
      IsTyped q
      × (q.my_params ≡ assign key (record { type_id = type_id; content = content }) p.my_params)

  add_param-Stored :
      (type_id : ℕ) (key : List ℕ) (content : C) (m : Mutability) (p q : Params C)
      → IsTyped p
      → add_param type_id key content m p ≡ ok q
      → Stored type_id key content p q
  unfolding add_param has_key Stored
  add_param-Stored type_id key content m p q h e = elim (Option-cases (find_key key p.my_params)) [
    | inr (object, held) ↦
        refused_write key_exists (add_param type_id key content m p) q (rw (add_param, held) refl) e
    | inl absent ↦
        let object : Object C = record { type_id = type_id; content = content } in
        let after : Params C = record {
          my_params = assign key object p.my_params;
          my_types = emplace key type_id p.my_types;
          my_mutable = assign key m p.my_mutable;
        } in
        let done : ok after ≡ ok q = rw (add_param, absent) at e in
        let same : after ≡ q = cc in
        let types = emplace-absent key type_id p.my_types (h.nothing_noted key absent) in
        rw (sym same) (
          stored-IsTyped type_id key content p after h refl
              (λ k. ap (find_key k) types ∙ find_key-assign key k type_id p.my_types)
              (λ k.
                ap is_some (find_key-assign key k m p.my_mutable)
                ∙ elim (Bool-cases (eqb k key)) [ inl t ↦ rw t refl | inr t ↦ rw t refl ]),
          refl,
        )
  ]

  update_of_type :
      (type_id : ℕ) (key : List ℕ) (content : C) (object : Object C) (m : Mutability)
      (p q : Params C)
      → IsTyped p
      → find_key key p.my_params ≡ some object
      → find_key key p.my_mutable ≡ some m
      → can_change m ≡ true
      → (b : Bool) → (object.type_id == type_id) ≡ b
      → update type_id key content p ≡ ok q
      → Stored type_id key content p q
  unfolding update has_key Stored
  update_of_type type_id key content object m p q h held found free false t e =
      refused_write wrong_type (update type_id key content p) q
        (rw (update, held, found, free, h.type_noted key object held, t) refl) e
  update_of_type type_id key content object m p q h held found free true t e =
      let noted = h.type_noted key object held in
      let new : Object C = record { type_id = type_id; content = content } in
      let after : Params C = record p { my_params = assign key new p.my_params } in
      let done : ok after ≡ ok q = rw (update, held, found, free, noted, t) at e in
      let same : after ≡ q = cc in
      let typed : object.type_id ≡ type_id = ground arith in
      rw (sym same) (
        stored-IsTyped type_id key content p after h refl
            (λ k. elim (Bool-cases (eqb k key)) [
              | inl u ↦
                  let at : k ≡ key = eqb-eq k key u in
                  rw u (ap (λ x. find_key x p.my_types) at ∙ noted ∙ ap (λ x. some x) typed)
              | inr u ↦ rw u refl
            ])
            (λ k. elim (Bool-cases (eqb k key)) [
              | inl u ↦
                  let at : k ≡ key = eqb-eq k key u in
                  rw u (ap (λ x. is_some (find_key x p.my_mutable)) at ∙ ap is_some found)
              | inr u ↦ rw u refl
            ]),
        refl,
      )

  update-Stored :
      (type_id : ℕ) (key : List ℕ) (content : C) (p q : Params C)
      → IsTyped p
      → update type_id key content p ≡ ok q
      → Stored type_id key content p q
  unfolding update has_key Stored
  update-Stored type_id key content p q h e = elim (Option-cases (find_key key p.my_params)) [
    | inl absent ↦
        refused_write key_missing (update type_id key content p) q (rw (update, absent) refl) e
    | inr (object, held) ↦ elim (Option-cases (find_key key p.my_mutable)) [
      | inl lost ↦
          refused_write out_of_range (update type_id key content p) q (rw (update, held, lost) refl)
            e
      | inr (m, found) ↦ elim (Bool-cases (can_change m)) [
        | inr fixed ↦
            refused_write not_mutable (update type_id key content p) q
              (rw (update, held, found, fixed) refl) e
        | inl free ↦
            update_of_type type_id key content object m p q h held found free
              (object.type_id == type_id) refl e
      ]
    ]
  ]

-- Where the three maps of a Params are in step, an Add or an Update that succeeds leaves them so.
-- Afterwards Get gives what was written if it asks for the type that was written, and throws if it
-- asks for another; at every other key it does what it did before.
pub get-write :
    {C : Type 0} (type_id : ℕ) (key : List ℕ) (content : C) (p q : Params C)
    → IsTyped p
    → ((m : Mutability) × (add_param type_id key content m p ≡ ok q))
      ⊎ (update type_id key content p ≡ ok q)
    → IsTyped q
      × ((t : ℕ) (k : List ℕ)
          → get t k q ≡ (
              if eqb k key then if type_id == t then ok content else err wrong_type else get t k p))
unfolding Stored
get-write type_id key content p q h w =
    let (typed, written) = elim w as (λ x. Stored type_id key content p q) [
      | inl (m, added) ↦ add_param-Stored type_id key content m p q h added
      | inr updated ↦ update-Stored type_id key content p q h updated
    ] in
    (
      typed,
      λ t k.
          get-read_object t k q typed
          ∙ ap (λ ns. read_object t (find_key k ns)) written
          ∙ ap (read_object t)
              (find_key-assign key k (record { type_id = type_id; content = content }) p.my_params)
          ∙ elim (Bool-cases (eqb k key)) [
            | inl u ↦ rw u refl
            | inr u ↦ rw u (sym (get-read_object t k p h))
          ],
    )
