-- ===== src/Metadata/Select.antt =====
-- GetByFlag of src/interface/metadata.hpp against MatchFlags of src/interface/metadata.cpp.
use parthenon.Base.{
  ℕ, ◌==◌, ◌&&◌, ◌||◌, not, if◌then◌else◌, Bool, true, false, List, [], ◌∷◌, ◌≡◌, refl, ap, sym,
  ◌∙◌, arith, contains, Bool-cases, inl, inr,
}
use parthenon.Metadata.Flag.{MetadataFlag}
use parthenon.Metadata.Bits.{is_set, any_flags_set, all_flags_set, no_flags_set}
use parthenon.Metadata.Construct.{is_empty}
use parthenon.Metadata.Collection.{
  FlagCollection, empty, match_flags, insert, insert_required, insert_not_excluded, insert_unions,
  insert_all, get_by_intersections, get_by_flag,
}

pub contains-insert : (v w : ℕ) (ws : List ℕ) → contains v (insert w ws) ≡ (v == w) || contains v ws
unfolding insert
contains-insert v w [] = refl
contains-insert v w (x ∷ xs) = ground (arith, contains-insert v w xs)

no_flags-any :
    (bits : List Bool) (fs : List MetadataFlag) → no_flags_set bits fs ≡ not (any_flags_set bits fs)
unfolding no_flags_set any_flags_set
no_flags-any bits [] = refl
no_flags-any bits (f ∷ fs) = ground (arith, no_flags-any bits fs)

contains-insert_all :
    (v : ℕ) (vs out : List ℕ) → contains v (insert_all vs out) ≡ contains v vs || contains v out
unfolding insert_all
contains-insert_all v [] out = refl
contains-insert_all v (w ∷ ws) out =
    ground (arith, contains-insert_all v ws (insert w out), contains-insert v w out)

either_excluded :
    (bits : List Bool) (fs : List MetadataFlag)
    → not (not (is_empty fs) && any_flags_set bits fs) ≡ not (any_flags_set bits fs)
unfolding any_flags_set
either_excluded bits [] = refl
either_excluded bits (f ∷ fs) = refl

all_of_none :
    (bits : List Bool) (fs : List MetadataFlag) → is_empty fs ≡ true → all_flags_set bits fs ≡ true
unfolding all_flags_set
all_of_none bits [] h = refl
all_of_none bits (f ∷ fs) h = absurd cc

none_of_none :
    (bits : List Bool) (fs : List MetadataFlag) → is_empty fs ≡ true → no_flags_set bits fs ≡ true
unfolding no_flags_set
none_of_none bits [] h = refl
none_of_none bits (f ∷ fs) h = absurd cc

any_of_none :
    (bits : List Bool) (fs : List MetadataFlag) → is_empty fs ≡ true → any_flags_set bits fs ≡ false
unfolding any_flags_set
any_of_none bits [] h = refl
any_of_none bits (f ∷ fs) h = absurd cc

all_match : (c : FlagCollection) (bits : List Bool) → empty c ≡ true → match_flags c bits ≡ true
unfolding empty match_flags
all_match c bits h =
    ground (arith, all_of_none bits c.intersections, none_of_none bits c.exclusions)

module _ (metadata : ℕ → List Bool) (c : FlagCollection) where
  not_excluded : ℕ → Bool
  not_excluded v = not (not (is_empty c.exclusions) && any_flags_set (metadata v) c.exclusions)

  -- What GetByFlag tests of the variables with a required flag.
  tested : ℕ → Bool
  tested v =
      all_flags_set (metadata v) c.intersections
      && not_excluded v
      && (is_empty c.unions || any_flags_set (metadata v) c.unions)

  not_excluded-no_flags : (v : ℕ) → not_excluded v ≡ no_flags_set (metadata v) c.exclusions
  unfolding not_excluded
  not_excluded-no_flags v =
      either_excluded (metadata v) c.exclusions ∙ sym (no_flags-any (metadata v) c.exclusions)

  tested_parts : (v : ℕ) → tested v ≡ true → all_flags_set (metadata v) c.intersections ≡ true
  unfolding tested
  tested_parts v h = ground arith

  tested-match_flags : (v : ℕ) → tested v ≡ match_flags c (metadata v)
  unfolding tested match_flags
  tested-match_flags v = ground (arith, not_excluded-no_flags v)

  contains-insert_required :
      (v : ℕ) (vs out : List ℕ)
      → contains v (insert_required metadata c vs out)
        ≡ (contains v vs && tested v) || contains v out
  unfolding insert_required tested not_excluded
  contains-insert_required v [] out = ground arith
  contains-insert_required v (w ∷ ws) out = elim (Bool-cases (v == w)) [
    | inl e ↦
        let same : v ≡ w = ground arith in
        rw same (contains-insert_required w ws _ ∙ ground (arith, contains-insert w w out))
    | inr e ↦ contains-insert_required v ws _ ∙ ground (arith, contains-insert v w out)
  ]

  contains-insert_not_excluded :
      (v : ℕ) (vs out : List ℕ)
      → contains v (insert_not_excluded metadata c vs out)
        ≡ (contains v vs && not_excluded v) || contains v out
  unfolding insert_not_excluded not_excluded
  contains-insert_not_excluded v [] out = ground arith
  contains-insert_not_excluded v (w ∷ ws) out = elim (Bool-cases (v == w)) [
    | inl e ↦
        let same : v ≡ w = ground arith in
        rw same (contains-insert_not_excluded w ws _ ∙ ground (arith, contains-insert w w out))
    | inr e ↦ contains-insert_not_excluded v ws _ ∙ ground (arith, contains-insert v w out)
  ]

  -- The map gives, for each flag, just the variables that have it.
  module _ (names : List ℕ) (metadata_map : MetadataFlag → List ℕ)
      (maps : (f : MetadataFlag) (v : ℕ)
        → contains v (metadata_map f) ≡ contains v names && is_set (metadata v) f) where
    contains-insert_unions :
        (v : ℕ) (fs : List MetadataFlag) (out : List ℕ)
        → contains v (insert_unions metadata c metadata_map fs out)
          ≡ (contains v names && any_flags_set (metadata v) fs && not_excluded v) || contains v out
    unfolding insert_unions any_flags_set
    contains-insert_unions v [] out = ground arith
    contains-insert_unions v (f ∷ fs) out = ground (
      arith,
      contains-insert_unions v fs (insert_not_excluded metadata c (metadata_map f) out),
      contains-insert_not_excluded v (metadata_map f) out,
      maps f v,
    )

    by_intersections :
        (v : ℕ) (required : List MetadataFlag)
        → c.intersections ≡ required
        → not (is_empty required) || not (is_empty c.unions) ≡ true
        → contains v (get_by_intersections metadata c metadata_map required)
          ≡ contains v names && match_flags c (metadata v)
    unfolding get_by_intersections all_flags_set match_flags
    by_intersections v [] e h =
        let none_required : all_flags_set (metadata v) c.intersections ≡ true =
          ap (all_flags_set (metadata v)) e in
        ground (arith, contains-insert_unions v c.unions [], none_required, not_excluded-no_flags v)
    by_intersections v (f ∷ fs) e h =
        let first_set : all_flags_set (metadata v) c.intersections
            ≡ is_set (metadata v) f && all_flags_set (metadata v) fs =
          ap (all_flags_set (metadata v)) e in
        let is_tested = tested_parts v in
        ground (
          arith,
          contains-insert_required v (metadata_map f) [],
          first_set,
          maps f v,
          tested-match_flags v,
          is_tested,
        )

    excluded_only :
        (v : ℕ) (required : List MetadataFlag)
        → is_empty required ≡ true
        → is_empty c.unions ≡ true
        → contains v (get_by_intersections metadata c metadata_map required) ≡ false
    unfolding get_by_intersections any_flags_set
    excluded_only v [] e h =
        contains-insert_unions v c.unions [] ∙ ground (arith, any_of_none (metadata v) c.unions h)
    excluded_only v (f ∷ fs) e h = absurd cc

    -- GetByFlag gives just the variables whose metadata MatchFlags accepts, if the collection is
    -- empty or has flags to take the union or the intersection of, and otherwise none, if the map
    -- gives, for each flag, just the variables that have it.
    pub get_by_flag-match_flags :
        (v : ℕ)
        → contains v (get_by_flag metadata c names metadata_map) ≡ (
            if empty c || not (is_empty c.intersections) || not (is_empty c.unions)
            then contains v names && match_flags c (metadata v)
            else false)
    unfolding get_by_flag
    get_by_flag-match_flags v = elim (Bool-cases (empty c)) [
      | inl e ↦ rw e (contains-insert_all v names [] ∙ ground (arith, all_match c (metadata v) e))
      | inr e ↦
          rw e (
            ground
              (arith, by_intersections v c.intersections refl, excluded_only v c.intersections))
    ]
