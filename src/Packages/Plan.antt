-- ===== src/Packages/Plan.antt =====
-- What the resolution of src/interface/state_descriptor.cpp has to do, as the calls of the provider that a list
-- of variables asks for, and when the variables are consistent.
use parthenon.Base.{
  ℕ, ◌+◌, ◌≤◌, ◌==◌, ◌&&◌, ◌||◌, not, if◌then◌else◌, Bool, true, false, List, [], ◌∷◌, ◌++◌, Result,
  ok, err, ◌>>=◌, ◌≡◌, All, flag,
}
use parthenon.Base.Chars.{eqb}
use parthenon.Metadata.{Metadata, private_flag, provides, requires, overridable, ignore}
use parthenon.Packages.Tracker.{Error, VariableProvider, Entry, dependency, member}

pub data Call : Type 0 where
  private_call : List ℕ → List ℕ → Metadata → Call
  provides_call : List ℕ → List ℕ → Metadata → Call
  overridable_call : List ℕ → Metadata → Call

abbrev pub perform_one : {S : Type 0} → VariableProvider S → Call → S → Result Error S
perform_one pvp (private_call p x m) s = pvp.add_private p x m s
perform_one pvp (provides_call p x m) s = pvp.add_provides p x m s
perform_one pvp (overridable_call x m) s = pvp.add_overridable x m s

abbrev pub perform : {S : Type 0} → VariableProvider S → List Call → S → Result Error S
perform pvp [] s = ok s
perform pvp (c ∷ cs) s = perform_one pvp c s >>= λ next. perform pvp cs next

-- The role of a variable, Ignore if it has none.
abbrev pub role_of : Entry → ℕ
role_of e = elim (dependency e) [ ok r ↦ r | err f ↦ ignore ]

abbrev pub direct_call_as : ℕ → Entry → List Call
direct_call_as r e =
    if r == private_flag
    then private_call e.package_name e.base_name e.metadata ∷ []
    else if r == provides
    then provides_call e.package_name e.base_name e.metadata ∷ []
    else []

-- The calls for what is private or provided, in order.
unfoldable pub direct_calls : List Entry → List Call
direct_calls [] = []
direct_calls (e ∷ es) = direct_call_as (role_of e) e ++ direct_calls es

-- How many entries provide a name, whether one requires it, and whether one offers to override it.
unfoldable pub count_provided : List ℕ → List Entry → ℕ
count_provided x [] = 0
count_provided x (e ∷ es) = flag (role_of e == provides && eqb x e.base_name) + count_provided x es

unfoldable pub is_required : List ℕ → List Entry → Bool
is_required x [] = false
is_required x (e ∷ es) = (role_of e == requires && eqb x e.base_name) || is_required x es

unfoldable pub is_offered : List ℕ → List Entry → Bool
is_offered x [] = false
is_offered x (e ∷ es) = (role_of e == overridable && eqb x e.base_name) || is_offered x es

-- The calls for the names that are offered and not `taken`: the first offer of each.
unfoldable pub offered_calls : List (List ℕ) → (List ℕ → Bool) → List Entry → List Call
offered_calls seen taken [] = []
offered_calls seen taken (e ∷ es) =
    let first = offered_calls (e.base_name ∷ seen) taken es in
    let rest = offered_calls seen taken es in
    if role_of e == overridable && not (member e.base_name seen)
    then if taken e.base_name then first else overridable_call e.base_name e.metadata ∷ first
    else rest

-- The calls for the names that are offered and not provided, in the order of their first offers.
abbrev pub overridable_calls : List Entry → List Call
overridable_calls es = offered_calls [] (λ x. not (count_provided x es == 0)) es

pub record IsConsistent (es : List Entry) : Type 0 where
  pub roles : All (λ e. dependency e ≡ ok (role_of e)) es
  pub once : (x : List ℕ) → count_provided x es ≤ 1
  pub met :
      (x : List ℕ)
      → is_required x es ≡ true
      → (not (count_provided x es == 0) || is_offered x es) ≡ true
