-- ===== src/Packages/Resolved.antt =====
-- When the resolution of src/interface/state_descriptor.cpp succeeds, and the calls that it makes.
use parthenon.Base.{
  ℕ, ◌+◌, ◌≤◌, ◌==◌, ◌&&◌, ◌||◌, not, Bool, true, false, List, [], ◌∷◌, ok, ◌>>=◌, >>=-eq-ok,
  Result-cases, ◌≡◌, refl, ap, sym, ◌∙◌, arith, All, flag, Bool-cases, inl, inr,
}
use parthenon.Base.Chars.{eqb, eqb_refl, eqb-eq}
use parthenon.Metadata.{provides, requires}
use parthenon.Packages.Tracker.{
  VariableProvider, DependencyTracker, Entry, dependency, member, provided, categorize_as,
  categorize, categorize_collection,
}
use parthenon.Packages.Plan.{
  perform, role_of, direct_call_as, direct_calls, count_provided, is_required,
}
use parthenon.Packages.Noted.{
  noted_as, noted_all, dependency-is_role, perform-append, Done, Does, categorize_as-Done,
  categorize_as-Does,
}

-- What a step adds to the three collections.
provided-noted :
    (r : ℕ) (e : Entry) (t : DependencyTracker) (x : List ℕ)
    → provided (noted_as r e t) x ≡ (r == provides && eqb x e.base_name) || provided t x
unfolding provided noted_as
provided-noted r e t x = ground arith

member-noted :
    (r : ℕ) (e : Entry) (t : DependencyTracker) (x : List ℕ)
    → member x (noted_as r e t).depends_vars
      ≡ (r == requires && eqb x e.base_name) || member x t.depends_vars
unfolding noted_as
member-noted r e t x = ground arith

-- Everything noted: what is provided, required and offered.
pub provided-all :
    (es : List Entry) (t : DependencyTracker) (x : List ℕ)
    → provided (noted_all es t) x ≡ not (count_provided x es == 0) || provided t x
unfolding noted_all count_provided
provided-all [] t x = ground arith
provided-all (e ∷ es) t x =
    provided-all es (noted_as (role_of e) e t) x ∙ ground (arith, provided-noted (role_of e) e t x)

pub member-all :
    (es : List Entry) (t : DependencyTracker) (x : List ℕ)
    → member x (noted_all es t).depends_vars ≡ is_required x es || member x t.depends_vars
unfolding noted_all is_required
member-all [] t x = refl
member-all (e ∷ es) t x =
    member-all es (noted_as (role_of e) e t) x ∙ ground (arith, member-noted (role_of e) e t x)

role_at : (e : Entry) (r : ℕ) → dependency e ≡ ok r → role_of e ≡ r
role_at e r h = rw (role_of, h) refl

once_more :
    (r : ℕ) (e : Entry) (t : DependencyTracker) (x : List ℕ) (n : ℕ) {b : Bool}
    → n + flag b ≤ 1
    → b ≡ (r == provides && eqb x e.base_name) || provided t x
    → ((r == provides) ≡ true → provided t e.base_name ≡ false)
    → flag (r == provides && eqb x e.base_name) + n + flag (provided t x) ≤ 1
once_more r e t x n h k new = elim (Bool-cases (r == provides && eqb x e.base_name)) [
  | inl both ↦
      let same : x ≡ e.base_name = eqb-eq x e.base_name (ground arith) in
      let absent : provided t x ≡ false = rw same (new (ground arith)) in ground arith
  | inr other ↦ ground arith
]

module _ {S : Type 0} (pvp : VariableProvider S) where
  -- Names are provided at most once from here on.
  abbrev pub Once : List Entry → DependencyTracker → Type 0
  Once es t = (x : List ℕ) → count_provided x es + flag (provided t x) ≤ 1

  pub collection_done :
      (es : List Entry) (t : DependencyTracker) (s : S) (y : DependencyTracker × S)
      → categorize_collection pvp es t s ≡ ok y
      → All (λ e. dependency e ≡ ok (role_of e)) es
        × (y.0 ≡ noted_all es t)
        × (perform pvp (direct_calls es) s ≡ ok y.1)
        × Once es t
  unfolding categorize_collection categorize noted_all direct_calls count_provided Done
  collection_done [] t s y h =
      let same : (t, s) ≡ y = cc in rw (sym same) (tt, refl, refl, λ x. ground arith)
  collection_done (e ∷ es) t s y h =
      let (noted, one, rest) =
        >>=-eq-ok (categorize pvp e t s) (λ noted. categorize_collection pvp es noted.0 noted.1)
          h in
      let (r, dep, first) = >>=-eq-ok (dependency e) (λ r. categorize_as pvp r e t s) one in
      let at : role_of e ≡ r = role_at e r dep in
      let (tracker, call, new) = categorize_as-Done pvp r e t s noted first in
      let (roles, trackers, calls, once) = collection_done es noted.0 noted.1 y rest in
      (
        (dep ∙ ap ok (sym at), roles),
        trackers ∙ ap (noted_all es) (tracker ∙ ap (λ q. noted_as q e t) (sym at)),
        perform-append pvp (direct_call_as (role_of e) e) (direct_calls es) s ∙ rw (at, call) calls,
        λ x.
            let noted_x : provided noted.0 x
                ≡ (r == provides && eqb x e.base_name) || provided t x =
              ap (λ q. provided q x) tracker ∙ provided-noted r e t x in
            rw at (once_more r e t x _ (once x) noted_x new),
      )

  pub collection_does :
      (es : List Entry) (t : DependencyTracker) (s : S)
      → All (λ e. dependency e ≡ ok (role_of e)) es
      → Once es t
      → categorize_collection pvp es t s
        ≡ (perform pvp (direct_calls es) s >>= λ next. ok (noted_all es t, next))
  unfolding categorize_collection categorize noted_all direct_calls count_provided Does
  collection_does [] t s roles once = refl
  collection_does (e ∷ es) t s (dep, roles) once =
      let new : (role_of e == provides) ≡ true → provided t e.base_name ≡ false =
        λ k. ground (arith, once e.base_name, eqb_refl e.base_name) in
      let does =
        categorize_as-Does pvp (role_of e) e t s (dependency-is_role e (role_of e) dep) new in
      rw (dep, does, perform-append pvp (direct_call_as (role_of e) e) (direct_calls es) s)
        (elim (Result-cases (perform pvp (direct_call_as (role_of e) e) s)) [
          | inl (f, failed) ↦ rw failed refl
          | inr (next, called) ↦ rw called (
              collection_does es (noted_as (role_of e) e t) next roles
                (λ x. ground (arith, once x, provided-noted (role_of e) e t x)))
        ])
