-- ===== src/Packages/Values.antt =====
-- Params of src/interface/params.hpp. A type is known by its `std::type_index`, a number; the contents of a value
-- are of any type. `Get` reads an object through a cast that gives null where the object is of another type.
use parthenon.Base.{
  ℕ, ◌==◌, not, if◌then◌else◌, Bool, true, false, Option, none, some, List, [], ◌∷◌, Result, ok,
  err, guard, ◌>>=◌, ◌>>◌,
}
use parthenon.Base.Chars.{eqb}

pub data Mutability : Type 0 where
  immutable mutable restart : Mutability

pub data ParamsError : Type 0 where
  key_exists : ParamsError
  key_missing : ParamsError
  not_mutable : ParamsError
  wrong_type : ParamsError
  -- A map is read at() a key that it does not have, or a null pointer is read.
  out_of_range : ParamsError
  null_pointer : ParamsError

pub record Named (A : Type 0) : Type 0 where
  pub key : List ℕ
  pub value : A

module _ {A : Type 0} where
  unfoldable pub find_key : List ℕ → List (Named A) → Option A
  find_key key [] = none
  find_key key (n ∷ ns) = let rest = find_key key ns in if eqb key n.key then some n.value else rest

  -- map[key] = value
  unfoldable pub assign : List ℕ → A → List (Named A) → List (Named A)
  assign key value [] = record { key = key; value = value } ∷ []
  assign key value (n ∷ ns) =
      let rest = assign key value ns in
      if eqb key n.key then record { key = key; value = value } ∷ ns else n ∷ rest

  -- map.emplace, which keeps an entry that is there.
  unfoldable pub emplace : List ℕ → A → List (Named A) → List (Named A)
  emplace key value ns = elim (find_key key ns) [ some present ↦ ns | none ↦ assign key value ns ]

pub record Object (C : Type 0) : Type 0 where
  pub type_id : ℕ
  pub content : C

pub record Params (C : Type 0) : Type 0 where
  pub my_params : List (Named (Object C))
  pub my_types : List (Named ℕ)
  pub my_mutable : List (Named Mutability)

abbrev pub is_some {ℓ} : {A : Type ℓ} → Option A → Bool
is_some none = false
is_some (some x) = true

abbrev pub can_change : Mutability → Bool
can_change immutable = false
can_change mutable = true
can_change restart = true

module _ {C : Type 0} where
  unfoldable pub has_key : List ℕ → Params C → Bool
  has_key key p = is_some (find_key key p.my_params)

  unfoldable pub add_param : ℕ → List ℕ → C → Mutability → Params C → Result ParamsError (Params C)
  add_param type_id key content m p =
      guard (not (has_key key p)) key_exists
      >> ok (record {
        my_params = assign key (record { type_id = type_id; content = content }) p.my_params;
        my_types = emplace key type_id p.my_types;
        my_mutable = assign key m p.my_mutable;
      })

  unfoldable pub update : ℕ → List ℕ → C → Params C → Result ParamsError (Params C)
  update type_id key content p =
      guard (has_key key p) key_missing >> elim (find_key key p.my_mutable) [
        | none ↦ err out_of_range
        | some m ↦ guard (can_change m) not_mutable >> elim (find_key key p.my_types) [
          | none ↦ err out_of_range
          | some t ↦
              guard (t == type_id) wrong_type
              >> ok (record p {
                my_params =
                    assign key (record { type_id = type_id; content = content }) p.my_params;
              })
        ]
      ]

  unfoldable pub get : ℕ → List ℕ → Params C → Result ParamsError C
  get type_id key p = elim (find_key key p.my_params) [
    | none ↦ err key_missing
    | some object ↦ elim (find_key key p.my_types) [
      | none ↦ err out_of_range
      | some t ↦
          guard (t == type_id) wrong_type
          >> (if object.type_id == type_id then ok object.content else err null_pointer)
    ]
  ]

  unfoldable pub get_or_add : ℕ → List ℕ → C → Params C → Result ParamsError (C × Params C)
  get_or_add type_id key default_value p =
      (if not (has_key key p) then add_param type_id key default_value immutable p else ok p)
      >>= λ q. get type_id key q >>= λ content. ok (content, q)

  unfoldable pub get_type : List ℕ → Params C → Result ParamsError ℕ
  get_type key p = elim (find_key key p.my_types) [ none ↦ err key_missing | some t ↦ ok t ]

  abbrev pub reset : Params C
  reset = record { my_params = []; my_types = []; my_mutable = [] }
