-- ===== src/Packages/Offers.antt =====
-- CheckRequires and CheckOverridable of src/interface/state_descriptor.cpp.
use mathlib.Core.List.Permᴰ
use mathlib.Core.List.{Perm, Permᴰ}
use mathlib.Core.Logic.{∥∥₁_map}
use parthenon.Base.{
  ℕ, ◌+◌, ◌==◌, ◌||◌, if◌then◌else◌, Bool, true, false, List, [], ◌∷◌, ◌++◌, length, ok,
  Result-cases, ◌≡◌, refl, ap, sym, ◌∙◌, arith, Bool-cases, inl, inr, ◌↔◌, if-elim, append_assoc,
  subst,
}
use parthenon.Base.Chars.{eqb, eqb_refl, eqb-eq}
use parthenon.Metadata.{Metadata, overridable}
use parthenon.Packages.Tracker.{
  VariableProvider, DependencyTracker, Entry, member, Overridable, provided, is_overridable,
  note_overridable, add_each, check_overridable_in, check_requires_in, check_requires,
}
use parthenon.Packages.Plan.{Call, overridable_call, perform, role_of, is_offered}
use parthenon.Packages.Noted.{noted_as, noted_all, perform-append}

-- CheckRequires succeeds just when each required name is provided or offered.
check_requires_in_iff :
    (t : DependencyTracker) (vs : List (List ℕ))
    → (check_requires_in t vs ≡ ok tt) ↔ (
        (x : List ℕ)
        → member x vs ≡ true
        → (provided t x || is_overridable x t.overridable_vars) ≡ true)
unfolding check_requires_in
check_requires_in_iff t [] = (λ h x k. absurd cc, λ h. refl)
check_requires_in_iff t (v ∷ vs) =
    let ih = check_requires_in_iff t vs in
    (
      λ h x k. elim (Bool-cases (eqb x v)) [
        | inl e ↦ let same : x ≡ v = eqb-eq x v e in rw same (ground arith)
        | inr e ↦ ih.0 (ground arith) x (ground arith)
      ],
      λ h. ground (arith, h v (ground (arith, eqb_refl v)), ih.1 (λ x k. h x (ground arith))),
    )

pub check_requires_iff :
    (t : DependencyTracker)
    → (check_requires t ≡ ok tt) ↔ (
        (x : List ℕ)
        → member x t.depends_vars ≡ true
        → (provided t x || is_overridable x t.overridable_vars) ≡ true)
unfolding check_requires
check_requires_iff t = check_requires_in_iff t t.depends_vars

-- The calls that CheckOverridable makes.
unfoldable pub each_call : List ℕ → List Metadata → List Call
each_call x [] = []
each_call x (m ∷ ms) = overridable_call x m ∷ each_call x ms

unfoldable pub calls_of : (List ℕ → Bool) → List Overridable → List Call
calls_of taken [] = []
calls_of taken (o ∷ os) =
    (if taken o.base_name then [] else each_call o.base_name o.metadata) ++ calls_of taken os

module _ (taken : List ℕ → Bool) where
  calls_for : Overridable → List Call
  calls_for o = if taken o.base_name then [] else each_call o.base_name o.metadata

  front : (xs ys zs : List Call) → Permᴰ (xs ++ (ys ++ zs)) (ys ++ (xs ++ zs))
  front xs ys zs =
      subst (λ l. Permᴰ (xs ++ (ys ++ zs)) l) (append_assoc ys xs zs)
        (subst (λ l. Permᴰ l ((ys ++ xs) ++ zs)) (append_assoc xs ys zs)
          (Permᴰ.append_right zs (Permᴰ.append_comm xs ys)))

  Permᴰ-calls_of :
      {os os2 : List Overridable} → Permᴰ os os2 → Permᴰ (calls_of taken os) (calls_of taken os2)
  unfolding calls_of calls_for
  Permᴰ-calls_of Permᴰ.nil = Permᴰ.nil
  Permᴰ-calls_of (Permᴰ.cons {a} {b} {l₁} {l₂} e p) =
      subst (λ o. Permᴰ (calls_for a ++ calls_of taken l₁) (calls_for o ++ calls_of taken l₂)) e
        (Permᴰ.append_left (calls_for a) (Permᴰ-calls_of p))
  Permᴰ-calls_of (Permᴰ.swap {a} {b} {a'} {b'} {l} e f) =
      subst
        (λ o.
          Permᴰ (calls_for a ++ (calls_for b ++ calls_of taken l))
            (calls_for o ++ (calls_for b' ++ calls_of taken l)))
        f
        (subst
          (λ o.
            Permᴰ (calls_for a ++ (calls_for b ++ calls_of taken l))
              (calls_for b ++ (calls_for o ++ calls_of taken l)))
          e (front (calls_for a) (calls_for b) (calls_of taken l)))
  Permᴰ-calls_of (Permᴰ.trans p q) = Permᴰ.trans (Permᴰ-calls_of p) (Permᴰ-calls_of q)

  -- Another order of the entries is another order of the calls.
  pub Perm-calls_of :
      (os os2 : List Overridable) → Perm os os2 → Perm (calls_of taken os) (calls_of taken os2)
  Perm-calls_of os os2 p =
      ∥∥₁_map {B = Permᴰ (calls_of taken os) (calls_of taken os2)} p (λ d. Permᴰ-calls_of d)

names : List Overridable → List (List ℕ)
names [] = []
names (o ∷ os) = o.base_name ∷ names os

member-names : (x : List ℕ) (os : List Overridable) → member x (names os) ≡ is_overridable x os
unfolding names
member-names x [] = refl
member-names x (o ∷ os) = ground (arith, member-names x os)

module _ {S : Type 0} (pvp : VariableProvider S) where
  add_each-perform :
      (x : List ℕ) (ms : List Metadata) (s : S)
      → add_each pvp x ms s ≡ perform pvp (each_call x ms) s
  unfolding add_each each_call
  add_each-perform x [] s = refl
  add_each-perform x (m ∷ ms) s = elim (Result-cases (pvp.add_overridable x m s)) [
    | inl (f, e) ↦ rw e refl
    | inr (next, e) ↦ rw e (add_each-perform x ms next)
  ]

  pub check_overridable_in-perform :
      (t : DependencyTracker) (os : List Overridable) (s : S)
      → check_overridable_in pvp t os s ≡ perform pvp (calls_of (provided t) os) s
  unfolding check_overridable_in calls_of
  check_overridable_in-perform t [] s = refl
  check_overridable_in-perform t (o ∷ os) s = elim (Bool-cases (provided t o.base_name)) [
    | inl e ↦ rw e (check_overridable_in-perform t os s)
    | inr e ↦
        rw
          (
            e,
            add_each-perform o.base_name o.metadata s,
            perform-append pvp (each_call o.base_name o.metadata) (calls_of (provided t) os) s,
          )
          (elim (Result-cases (perform pvp (each_call o.base_name o.metadata) s)) [
            | inl (f, call) ↦ rw call refl
            | inr (next, call) ↦ rw call (check_overridable_in-perform t os next)
          ])
  ]

pub is_overridable-noted :
    (x y : List ℕ) (m : Metadata) (os : List Overridable)
    → is_overridable y (note_overridable x m os) ≡ eqb y x || is_overridable y os
unfolding note_overridable
is_overridable-noted x y m [] = refl
is_overridable-noted x y m (o ∷ os) = elim (Bool-cases (eqb x o.base_name)) [
  | inl e ↦
      let same : x ≡ o.base_name = eqb-eq x o.base_name e in
      rw e (
        if-elim
          (λ (p : Overridable).
            eqb y p.base_name || is_overridable y os
            ≡ eqb y x || (eqb y o.base_name || is_overridable y os))
          (length o.metadata == 1) (record o { packages = o.packages + 1 }) o
          (rw same (ground arith)) (rw same (ground arith)))
  | inr e ↦ rw e (ground (arith, is_overridable-noted x y m os))
]

-- A name that is on the list stays there as it is, another is added at the end.
pub calls_of-known :
    (taken : List ℕ → Bool) (x : List ℕ) (m : Metadata) (os : List Overridable)
    → is_overridable x os ≡ true
    → calls_of taken (note_overridable x m os) ≡ calls_of taken os
unfolding note_overridable calls_of
calls_of-known taken x m [] h = absurd cc
calls_of-known taken x m (o ∷ os) h = elim (Bool-cases (eqb x o.base_name)) [
  | inl e ↦ rw e (
      if-elim
        (λ (p : Overridable).
          (if taken p.base_name then [] else each_call p.base_name p.metadata) ++ calls_of taken os
          ≡ (if taken o.base_name then [] else each_call o.base_name o.metadata)
            ++ calls_of taken os)
        (length o.metadata == 1) (record o { packages = o.packages + 1 }) o refl refl)
  | inr e ↦ rw e (
      ap (λ cs. (if taken o.base_name then [] else each_call o.base_name o.metadata) ++ cs)
        (calls_of-known taken x m os (ground arith)))
]

pub calls_of-new :
    (taken : List ℕ → Bool) (x : List ℕ) (m : Metadata) (os : List Overridable)
    → is_overridable x os ≡ false
    → calls_of taken (note_overridable x m os)
      ≡ calls_of taken os ++ (if taken x then [] else overridable_call x m ∷ [])
unfolding note_overridable calls_of each_call
calls_of-new taken x m [] h = elim (Bool-cases (taken x)) [ inl e ↦ rw e refl | inr e ↦ rw e refl ]
calls_of-new taken x m (o ∷ os) h =
    let other : eqb x o.base_name ≡ false = ground arith in
    rw other (
      ap (λ cs. (if taken o.base_name then [] else each_call o.base_name o.metadata) ++ cs)
        (calls_of-new taken x m os (ground arith))
      ∙ sym (
          append_assoc (if taken o.base_name then [] else each_call o.base_name o.metadata)
            (calls_of taken os) (if taken x then [] else overridable_call x m ∷ [])))

pub overridable-noted :
    (r : ℕ) (e : Entry) (t : DependencyTracker)
    → (noted_as r e t).overridable_vars ≡ (
        if r == overridable
        then note_overridable e.base_name e.metadata t.overridable_vars
        else t.overridable_vars)
unfolding noted_as
overridable-noted r e t = ground arith

-- What is offered in the end.
pub is_overridable-all :
    (es : List Entry) (t : DependencyTracker) (x : List ℕ)
    → is_overridable x (noted_all es t).overridable_vars
      ≡ is_offered x es || is_overridable x t.overridable_vars
unfolding noted_all is_offered
is_overridable-all [] t x = refl
is_overridable-all (e ∷ es) t x =
    is_overridable-all es (noted_as (role_of e) e t) x
    ∙ elim (Bool-cases (role_of e == overridable)) [
      | inl k ↦
          let noted : (noted_as (role_of e) e t).overridable_vars
              ≡ note_overridable e.base_name e.metadata t.overridable_vars =
            overridable-noted (role_of e) e t ∙ rw k refl in
          rw (noted, k)
            (ground (arith, is_overridable-noted e.base_name x e.metadata t.overridable_vars))
      | inr k ↦
          let noted : (noted_as (role_of e) e t).overridable_vars ≡ t.overridable_vars =
            overridable-noted (role_of e) e t ∙ rw k refl in
          rw (noted, k) (ground arith)
    ]
