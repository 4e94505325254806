-- ===== src/Packages/Consistent.antt =====
-- The resolution of src/interface/state_descriptor.cpp against the calls that the variables ask for.
use mathlib.Core.List.{Perm}
use parthenon.Base.{
  ℕ, ◌==◌, ◌||◌, not, if◌then◌else◌, Bool, true, false, List, [], ◌∷◌, ◌++◌, ok, ◌>>=◌, >>=-eq-ok,
  Result-cases, ◌≡◌, refl, ap, sym, ◌∙◌, arith, Bool-cases, inl, inr, ◌↔◌, append_nil, append_assoc,
  subst,
}
use parthenon.Base.Chars.{eqb, eqb-eq}
use parthenon.Metadata.{overridable}
use parthenon.Packages.Tracker.{
  VariableProvider, DependencyTracker, Entry, member, Overridable, provided, is_overridable,
  note_overridable, new_tracker, categorize_collection, check_requires, check_overridable, resolve,
}
use parthenon.Packages.Plan.{
  Call, overridable_call, perform, role_of, direct_calls, count_provided, is_required, is_offered,
  offered_calls, overridable_calls, IsConsistent,
}
use parthenon.Packages.Noted.{noted_as, noted_all, perform-append}
use parthenon.Packages.Resolved.{provided-all, member-all, collection_done, collection_does}
use parthenon.Packages.Offers.{
  check_requires_iff, calls_of, check_overridable_in-perform, overridable-noted, calls_of-known,
  calls_of-new, Perm-calls_of, is_overridable-noted, is_overridable-all,
}

-- The calls for the offers depend on the names seen and taken as sets.
offered_calls_same :
    (seen seen2 : List (List ℕ)) (taken taken2 : List ℕ → Bool) (es : List Entry)
    → ((x : List ℕ) → member x seen ≡ member x seen2)
    → ((x : List ℕ) → taken x ≡ taken2 x)
    → offered_calls seen taken es ≡ offered_calls seen2 taken2 es
unfolding offered_calls
offered_calls_same seen seen2 taken taken2 [] h k = refl
offered_calls_same seen seen2 taken taken2 (e ∷ es) h k =
    let first =
      offered_calls_same (e.base_name ∷ seen) (e.base_name ∷ seen2) taken taken2 es
        (λ x. ground (arith, h x)) k in
    let rest = offered_calls_same seen seen2 taken taken2 es h k in
    rw (h e.base_name, k e.base_name, first, rest) refl

one_more :
    (b : Bool) (c : Call) (cs : List Call)
    → (if b then [] else c ∷ []) ++ cs ≡ (if b then cs else c ∷ cs)
one_more true c cs = refl
one_more false c cs = refl

already :
    (x y : List ℕ) (os : List Overridable)
    → is_overridable y os ≡ true
    → eqb x y || is_overridable x os ≡ is_overridable x os
already x y os h = elim (Bool-cases (eqb x y)) [
  | inl e ↦ let same : x ≡ y = eqb-eq x y e in rw same (ground arith)
  | inr e ↦ ground arith
]

calls_of-all :
    (taken : List ℕ → Bool) (es : List Entry) (t : DependencyTracker) (seen : List (List ℕ))
    → ((x : List ℕ) → member x seen ≡ is_overridable x t.overridable_vars)
    → calls_of taken (noted_all es t).overridable_vars
      ≡ calls_of taken t.overridable_vars ++ offered_calls seen taken es
unfolding noted_all offered_calls
calls_of-all taken [] t seen h = sym (append_nil (calls_of taken t.overridable_vars))
calls_of-all taken (e ∷ es) t seen h = elim (Bool-cases (role_of e == overridable)) [
  | inl k ↦
      let noted : (noted_as (role_of e) e t).overridable_vars
          ≡ note_overridable e.base_name e.metadata t.overridable_vars =
        overridable-noted (role_of e) e t ∙ rw k refl in
      let more = λ (x : List ℕ).
        ap (is_overridable x) noted
        ∙ is_overridable-noted e.base_name x e.metadata t.overridable_vars in
      elim (Bool-cases (is_overridable e.base_name t.overridable_vars)) [
        | inl held ↦
            let held_seen : member e.base_name seen ≡ true = h e.base_name ∙ held in
            rw (k, held_seen)
              (calls_of-all taken es (noted_as (role_of e) e t) seen
                  (λ x. h x ∙ sym (more x ∙ already x e.base_name t.overridable_vars held))
                ∙ ap (λ os. calls_of taken os ++ offered_calls seen taken es) noted
                ∙ ap (λ cs. cs ++ offered_calls seen taken es)
                    (calls_of-known taken e.base_name e.metadata t.overridable_vars held))
        | inr new ↦
            let new_seen : member e.base_name seen ≡ false = h e.base_name ∙ new in
            let later = offered_calls (e.base_name ∷ seen) taken es in
            rw (k, new_seen)
              (calls_of-all taken es (noted_as (role_of e) e t) (e.base_name ∷ seen)
                  (λ x. ap (λ b. eqb x e.base_name || b) (h x) ∙ sym (more x))
                ∙ ap (λ os. calls_of taken os ++ later) noted
                ∙ ap (λ cs. cs ++ later)
                    (calls_of-new taken e.base_name e.metadata t.overridable_vars new)
                ∙ append_assoc (calls_of taken t.overridable_vars) _ later
                ∙ ap (λ cs. calls_of taken t.overridable_vars ++ cs)
                    (one_more (taken e.base_name) (overridable_call e.base_name e.metadata) later))
      ]
  | inr k ↦
      let noted : (noted_as (role_of e) e t).overridable_vars ≡ t.overridable_vars =
        overridable-noted (role_of e) e t ∙ rw k refl in
      rw k (
        calls_of-all taken es (noted_as (role_of e) e t) seen
          (λ x. h x ∙ sym (ap (is_overridable x) noted))
        ∙ ap (λ os. calls_of taken os ++ offered_calls seen taken es) noted)
]

noted : List Entry → DependencyTracker
noted es = noted_all es new_tracker

provided-noted_new :
    (es : List Entry) (x : List ℕ) → provided (noted es) x ≡ not (count_provided x es == 0)
unfolding noted provided
provided-noted_new es x = ground (arith, provided-all es new_tracker x)

-- The calls of CheckOverridable, in the order of the first offers, and in the order of the visits.
calls_of-noted :
    (es : List Entry)
    → calls_of (provided (noted es)) (noted es).overridable_vars ≡ overridable_calls es
unfolding noted offered_calls calls_of provided
calls_of-noted es =
    calls_of-all (provided (noted es)) es new_tracker [] (λ x. refl)
    ∙ offered_calls_same [] [] (provided (noted es)) (λ x. not (count_provided x es == 0)) es
        (λ x. refl) (provided-noted_new es)

unfoldable pub visited_calls : (List Overridable → List Overridable) → List Entry → List Call
unfolding noted
visited_calls visit es = calls_of (provided (noted es)) (visit (noted es).overridable_vars)

module _ (visit : List Overridable → List Overridable) {S : Type 0} (pvp : VariableProvider S) where
  check_overridable-visited :
      (es : List Entry) (s : S)
      → check_overridable pvp visit (noted es) s ≡ perform pvp (visited_calls visit es) s
  unfolding noted check_overridable visited_calls
  check_overridable-visited es s =
      check_overridable_in-perform pvp (noted es) (visit (noted es).overridable_vars) s

  -- CheckRequires passes just when what is required is provided or offered.
  required_met :
      (es : List Entry)
      → (check_requires (noted es) ≡ ok tt) ↔ (
          (x : List ℕ)
          → is_required x es ≡ true
          → (not (count_provided x es == 0) || is_offered x es) ≡ true)
  unfolding noted
  required_met es =
      let all = check_requires_iff (noted es) in
      (
        λ h x k. ground (
          arith,
          all.0 h x,
          member-all es new_tracker x,
          provided-noted_new es x,
          is_overridable-all es new_tracker x,
        ),
        λ h. all.1 (λ x k. ground (
          arith,
          h x,
          member-all es new_tracker x,
          provided-noted_new es x,
          is_overridable-all es new_tracker x,
        )),
      )

  pub resolve_sound :
      (es : List Entry) (s s2 : S)
      → resolve visit pvp es s ≡ ok s2
      → IsConsistent es × (perform pvp (direct_calls es ++ visited_calls visit es) s ≡ ok s2)
  unfolding resolve noted
  resolve_sound es s s2 h =
      let (found, first, later) =
        >>=-eq-ok (categorize_collection pvp es new_tracker s)
          (λ noted. check_requires noted.0 >>= λ met. check_overridable pvp visit noted.0 noted.1)
          h in
      let (met, checked, last) =
        >>=-eq-ok (check_requires found.0) (λ met. check_overridable pvp visit found.0 found.1)
          later in
      let (roles, tracker, calls, once) = collection_done pvp es new_tracker s found first in
      (
        record {
          roles = roles;
          once = λ x. omega (arith, once x);
          met = (required_met es).0 (sym (ap check_requires tracker) ∙ checked);
        },
        perform-append pvp (direct_calls es) _ s
            ∙ rw calls (
                sym (check_overridable-visited es found.1)
                ∙ sym (ap (λ t. check_overridable pvp visit t found.1) tracker)
                ∙ last),
      )

  resolve_complete :
      (es : List Entry) (s : S)
      → IsConsistent es
      → resolve visit pvp es s ≡ perform pvp (direct_calls es ++ visited_calls visit es) s
  unfolding resolve noted provided
  resolve_complete es s h =
      let does = collection_does pvp es new_tracker s h.roles (λ x. ground (arith, h.once x)) in
      rw (does, perform-append pvp (direct_calls es) (visited_calls visit es) s)
        (elim (Result-cases (perform pvp (direct_calls es) s)) [
          | inl (f, failed) ↦ rw failed refl
          | inr (next, called) ↦
              rw (called, (required_met es).1 h.met) (check_overridable-visited es next)
        ])

-- In whatever order a loop visits the unordered map of the overridable variables, the resolution of
-- the variables of the packages, with any provider, gives a state just when the variables are
-- consistent - each has a role, no name is provided twice, and each required name is provided or
-- overridable - and these calls give that state: AddPrivate and AddProvides for each private or
-- provided variable in order, then, in some order that depends on the variables and the visits
-- alone, AddOverridable once for each name that is offered and not provided, with the metadata of
-- the first variable of the list that offers it. That the visits are a permutation of the entries
-- is a hypothesis.
pub resolve-plan :
    (visit : List Overridable → List Overridable)
    → ((os : List Overridable) → Perm (visit os) os)
    → {S : Type 0} (pvp : VariableProvider S) (es : List Entry)
    → (visited : List Call) × Perm visited (overridable_calls es)
      × ((s s2 : S)
          → (resolve visit pvp es s ≡ ok s2)
            ↔ (IsConsistent es × (perform pvp (direct_calls es ++ visited) s ≡ ok s2)))
unfolding visited_calls
resolve-plan visit reorders pvp es = (
  visited_calls visit es,
  subst (λ cs. Perm (visited_calls visit es) cs) (calls_of-noted es)
      (Perm-calls_of (provided (noted es)) (visit (noted es).overridable_vars)
        (noted es).overridable_vars (reorders (noted es).overridable_vars)),
  λ s s2. (resolve_sound visit pvp es s s2, λ h. resolve_complete visit pvp es s h.0 ∙ h.1),
)
