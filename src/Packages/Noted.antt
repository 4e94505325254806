-- ===== src/Packages/Noted.antt =====
-- What Categorize of src/interface/state_descriptor.cpp notes and calls.
use parthenon.Base.{
  ℕ, ◌==◌, ◌||◌, if◌then◌else◌, Bool, true, false, List, [], ◌∷◌, ◌++◌, ok, err, ◌>>=◌, >>=-eq-ok,
  Result-cases, ◌≡◌, refl, sym, ◌∙◌, arith, Bool-cases, inl, inr,
}
use parthenon.Metadata.{role, private_flag, provides, requires, overridable}
use parthenon.Packages.Tracker.{
  provided_twice, unknown_dependency, VariableProvider, DependencyTracker, Entry, dependency,
  provided, note_overridable, categorize_as,
}
use parthenon.Packages.Plan.{Call, perform_one, perform, role_of, direct_call_as}

unfoldable pub noted_as : ℕ → Entry → DependencyTracker → DependencyTracker
noted_as r e t =
    if r == provides
    then record t { provided_vars = e.base_name ∷ t.provided_vars }
    else if r == requires
    then record t { depends_vars = e.base_name ∷ t.depends_vars }
    else if r == overridable
    then record t { overridable_vars = note_overridable e.base_name e.metadata t.overridable_vars }
    else t

unfoldable pub noted_all : List Entry → DependencyTracker → DependencyTracker
noted_all [] t = t
noted_all (e ∷ es) t = noted_all es (noted_as (role_of e) e t)

unfoldable pub is_role : ℕ → Bool
is_role r = r == private_flag || r == provides || r == requires || r == overridable

pub dependency-is_role : (e : Entry) (r : ℕ) → dependency e ≡ ok r → is_role r ≡ true
unfolding dependency role is_role
dependency-is_role e r h = ground arith

module _ {S : Type 0} (pvp : VariableProvider S) where
  pub perform-append :
      (cs ds : List Call) (s : S)
      → perform pvp (cs ++ ds) s ≡ (perform pvp cs s >>= λ next. perform pvp ds next)
  perform-append [] ds s = refl
  perform-append (c ∷ cs) ds s = elim (Result-cases (perform_one pvp c s)) [
    | inl (f, e) ↦ rw e refl
    | inr (next, e) ↦ rw e (perform-append cs ds next)
  ]

  -- What Categorize has done where it succeeds, for a role.
  unfoldable pub Done : ℕ → Entry → DependencyTracker → S → DependencyTracker × S → Type 0
  Done r e t s y =
      (y.0 ≡ noted_as r e t)
      × (perform pvp (direct_call_as r e) s ≡ ok y.1)
      × ((r == provides) ≡ true → provided t e.base_name ≡ false)

  private-Done :
      (e : Entry) (t : DependencyTracker) (s : S) (y : DependencyTracker × S)
      → categorize_as pvp private_flag e t s ≡ ok y
      → Done private_flag e t s y
  unfolding categorize_as noted_as Done
  private-Done e t s y h =
      let (added, call, pair) =
        >>=-eq-ok (pvp.add_private e.package_name e.base_name e.metadata s) (λ added. ok (t, added))
          h in
      let same : (t, added) ≡ y = cc in rw (sym same) (refl, rw call refl, λ k. absurd cc)

  requires-Done :
      (e : Entry) (t : DependencyTracker) (s : S) (y : DependencyTracker × S)
      → categorize_as pvp requires e t s ≡ ok y
      → Done requires e t s y
  unfolding categorize_as noted_as Done
  requires-Done e t s y h =
      let same : (record t { depends_vars = e.base_name ∷ t.depends_vars }, s) ≡ y = cc in
      rw (sym same) (refl, refl, λ k. absurd cc)

  overridable-Done :
      (e : Entry) (t : DependencyTracker) (s : S) (y : DependencyTracker × S)
      → categorize_as pvp overridable e t s ≡ ok y
      → Done overridable e t s y
  unfolding categorize_as noted_as Done
  overridable-Done e t s y h =
      let noted = note_overridable e.base_name e.metadata t.overridable_vars in
      let same : (record t { overridable_vars = noted }, s) ≡ y = cc in
      rw (sym same) (refl, refl, λ k. absurd cc)

  provides-Done :
      (e : Entry) (t : DependencyTracker) (s : S) (y : DependencyTracker × S)
      → categorize_as pvp provides e t s ≡ ok y
      → Done provides e t s y
  unfolding categorize_as noted_as Done
  provides-Done e t s y h = elim (Bool-cases (provided t e.base_name)) [
    | inl twice ↦ let failed : err provided_twice ≡ ok y = rw twice at h in absurd cc
    | inr new ↦
        let added_to = record t { provided_vars = e.base_name ∷ t.provided_vars } in
        let (added, call, pair) =
          >>=-eq-ok (pvp.add_provides e.package_name e.base_name e.metadata s)
            (λ added. ok (record t { provided_vars = e.base_name ∷ t.provided_vars }, added))
            (rw new at h) in
        let same : (added_to, added) ≡ y = cc in rw (sym same) (refl, rw call refl, λ k. new)
  ]

  unknown_fails :
      (r : ℕ) (e : Entry) (t : DependencyTracker) (s : S)
      → is_role r ≡ false
      → categorize_as pvp r e t s ≡ err unknown_dependency
  unfolding categorize_as is_role
  unknown_fails r e t s h =
      let a : (r == private_flag) ≡ false = ground arith in
      let b : (r == provides) ≡ false = ground arith in
      let c : (r == requires) ≡ false = ground arith in
      let d : (r == overridable) ≡ false = ground arith in rw (a, b, c, d) refl

  -- By the role.
  by_role :
      (P : ℕ → Type 0)
      → P private_flag
      → P provides
      → P requires
      → P overridable
      → (r : ℕ) → (is_role r ≡ false → P r)
      → P r
  unfolding is_role
  by_role P a b c d r other = elim (Bool-cases (r == private_flag)) [
    | inl at ↦ let same : r ≡ private_flag = ground arith in rw same a
    | inr not_private ↦ elim (Bool-cases (r == provides)) [
      | inl at ↦ let same : r ≡ provides = ground arith in rw same b
      | inr not_provides ↦ elim (Bool-cases (r == requires)) [
        | inl at ↦ let same : r ≡ requires = ground arith in rw same c
        | inr not_requires ↦ elim (Bool-cases (r == overridable)) [
          | inl at ↦ let same : r ≡ overridable = ground arith in rw same d
          | inr not_overridable ↦ other (ground arith)
        ]
      ]
    ]
  ]

  pub categorize_as-Done :
      (r : ℕ) (e : Entry) (t : DependencyTracker) (s : S) (y : DependencyTracker × S)
      → categorize_as pvp r e t s ≡ ok y
      → Done r e t s y
  categorize_as-Done r e t s y =
      by_role (λ r. categorize_as pvp r e t s ≡ ok y → Done r e t s y) (private-Done e t s y)
        (provides-Done e t s y) (requires-Done e t s y) (overridable-Done e t s y) r
        (λ k h.
          let failed : err unknown_dependency ≡ ok y = sym (unknown_fails r e t s k) ∙ h in
          absurd cc)

  -- What Categorize does where nothing hinders it.
  unfoldable pub Does : ℕ → Entry → DependencyTracker → S → Type 0
  Does r e t s =
      ((r == provides) ≡ true → provided t e.base_name ≡ false)
      → categorize_as pvp r e t s
        ≡ (perform pvp (direct_call_as r e) s >>= λ next. ok (noted_as r e t, next))

  private-Does : (e : Entry) (t : DependencyTracker) (s : S) → Does private_flag e t s
  unfolding categorize_as noted_as Does
  private-Does e t s h =
      elim (Result-cases (pvp.add_private e.package_name e.base_name e.metadata s)) [
        | inl (f, call) ↦ rw call refl
        | inr (added, call) ↦ rw call refl
      ]

  provides-Does : (e : Entry) (t : DependencyTracker) (s : S) → Does provides e t s
  unfolding categorize_as noted_as Does
  provides-Does e t s h =
      rw (h refl) (elim (Result-cases (pvp.add_provides e.package_name e.base_name e.metadata s)) [
        | inl (f, call) ↦ rw call refl
        | inr (added, call) ↦ rw call refl
      ])

  pub categorize_as-Does :
      (r : ℕ) (e : Entry) (t : DependencyTracker) (s : S) → is_role r ≡ true → Does r e t s
  unfolding Does categorize_as noted_as
  categorize_as-Does r e t s known =
      by_role (λ r. Does r e t s) (private-Does e t s) (provides-Does e t s) (λ h. refl) (λ h. refl)
        r (λ k. absurd cc)
