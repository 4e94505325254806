-- ===== src/Packages/Tracker.antt =====
-- VariableProvider and DependencyTracker of src/interface/state_descriptor.cpp. The metadata and the number of
-- packages that have an overridable variable are one entry of a list; a base name is a string.
use parthenon.Base.{
  ℕ, ◌+◌, ◌==◌, ◌&&◌, ◌||◌, not, if◌then◌else◌, Bool, false, List, [], ◌∷◌, length, Result, ok, err,
  ◌>>=◌,
}
use parthenon.Base.Chars.{eqb}
use parthenon.Metadata.{Metadata, role, private_flag, provides, requires, overridable}

pub data Error : Type 0 where
  no_role : Error
  provided_twice : Error
  unknown_dependency : Error
  not_provided : Error
  -- A provider could not add a variable.
  not_added : Error
  no_such_package : Error
  no_controller : Error
  sparse_field : Error
  bad_metadata : Error

pub record VariableProvider (S : Type 0) : Type 0 where
  pub add_private : List ℕ → List ℕ → Metadata → S → Result Error S
  pub add_provides : List ℕ → List ℕ → Metadata → S → Result Error S
  pub add_overridable : List ℕ → Metadata → S → Result Error S

abbrev pub member : List ℕ → List (List ℕ) → Bool
member x [] = false
member x (y ∷ ys) = eqb x y || member x ys

pub record Overridable : Type 0 where
  pub base_name : List ℕ
  pub metadata : List Metadata
  pub packages : ℕ

pub record DependencyTracker : Type 0 where
  pub provided_vars : List (List ℕ)
  pub depends_vars : List (List ℕ)
  pub overridable_vars : List Overridable

abbrev pub new_tracker : DependencyTracker
new_tracker = record { provided_vars = []; depends_vars = []; overridable_vars = [] }

unfoldable pub provided : DependencyTracker → List ℕ → Bool
provided t base_name = member base_name t.provided_vars

abbrev pub is_overridable : List ℕ → List Overridable → Bool
is_overridable x [] = false
is_overridable x (o ∷ os) = eqb x o.base_name || is_overridable x os

-- The entry of a name counts one more package; a new entry has the metadata of the first.
unfoldable pub note_overridable : List ℕ → Metadata → List Overridable → List Overridable
note_overridable x m [] = record { base_name = x; metadata = m ∷ []; packages = 1 } ∷ []
note_overridable x m (o ∷ os) =
    let rest = note_overridable x m os in
    if eqb x o.base_name
    then (if length o.metadata == 1 then record o { packages = o.packages + 1 } else o) ∷ os
    else o ∷ rest

-- One variable of a package.
pub record Entry : Type 0 where
  pub package_name : List ℕ
  pub base_name : List ℕ
  pub metadata : Metadata

unfoldable pub dependency : Entry → Result Error ℕ
dependency e = elim (role e.metadata.bits) [ ok r ↦ ok r | err f ↦ err no_role ]

module _ {S : Type 0} (pvp : VariableProvider S) where
  -- Categorize once it has read the role.
  unfoldable pub categorize_as :
      ℕ → Entry → DependencyTracker → S → Result Error (DependencyTracker × S)
  categorize_as r e t s =
      if r == private_flag
      then (pvp.add_private e.package_name e.base_name e.metadata s >>= λ added. ok (t, added))
      else if r == provides
      then if provided t e.base_name
        then err provided_twice
        else (pvp.add_provides e.package_name e.base_name e.metadata s >>= λ added.
            ok (record t { provided_vars = e.base_name ∷ t.provided_vars }, added))
      else if r == requires
      then ok (record t { depends_vars = e.base_name ∷ t.depends_vars }, s)
      else if r == overridable
      then ok (
        record t { overridable_vars = note_overridable e.base_name e.metadata t.overridable_vars },
        s,
      )
      else err unknown_dependency

  unfoldable pub categorize : Entry → DependencyTracker → S → Result Error (DependencyTracker × S)
  categorize e t s = dependency e >>= λ r. categorize_as r e t s

  unfoldable pub categorize_collection :
      List Entry → DependencyTracker → S → Result Error (DependencyTracker × S)
  categorize_collection [] t s = ok (t, s)
  categorize_collection (e ∷ es) t s =
      categorize e t s >>= λ noted. categorize_collection es noted.0 noted.1

  unfoldable pub add_each : List ℕ → List Metadata → S → Result Error S
  add_each base_name [] s = ok s
  add_each base_name (m ∷ ms) s =
      pvp.add_overridable base_name m s >>= λ added. add_each base_name ms added

  unfoldable pub check_overridable_in : DependencyTracker → List Overridable → S → Result Error S
  check_overridable_in t [] s = ok s
  check_overridable_in t (o ∷ os) s =
      (if not (provided t o.base_name) then add_each o.base_name o.metadata s else ok s)
      >>= λ added. check_overridable_in t os added

  -- `visit` is the order in which the loop visits an unordered map.
  unfoldable pub check_overridable :
      (List Overridable → List Overridable) → DependencyTracker → S → Result Error S
  check_overridable visit t s = check_overridable_in t (visit t.overridable_vars) s

unfoldable pub check_requires_in : DependencyTracker → List (List ℕ) → Result Error (Unit {0})
check_requires_in t [] = ok tt
check_requires_in t (v ∷ vs) =
    let rest = check_requires_in t vs in
    if not (provided t v) && not (is_overridable v t.overridable_vars)
    then err not_provided
    else rest

unfoldable pub check_requires : DependencyTracker → Result Error (Unit {0})
check_requires t = check_requires_in t t.depends_vars

-- Resolution with one tracker: what CreateResolvedStateDescriptor does of the fields.
unfoldable pub resolve :
    {S : Type 0}
    → (List Overridable → List Overridable)
    → VariableProvider S
    → List Entry
    → S
    → Result Error S
resolve visit pvp es s = categorize_collection pvp es new_tracker s >>= λ noted.
    check_requires noted.0 >>= λ met. check_overridable pvp visit noted.0 noted.1
