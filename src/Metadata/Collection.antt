-- ===== src/Metadata/Collection.antt =====
-- FlagCollection, MatchFlags and GetByFlag of src/interface/metadata.hpp and .cpp. A `std::set` is the
-- list of its items; a variable is known by its unique number, by which the sets are ordered too.
use parthenon.Base.{ℕ, ltb, ◌==◌, ◌&&◌, ◌||◌, not, if◌then◌else◌, Bool, List, [], ◌∷◌, ◌++◌}
use parthenon.Metadata.Flag.{MetadataFlag}
use parthenon.Metadata.Bits.{any_flags_set, all_flags_set, no_flags_set}
use parthenon.Metadata.Construct.{is_empty}

pub record FlagCollection : Type 0 where
  pub unions : List MetadataFlag
  pub intersections : List MetadataFlag
  pub exclusions : List MetadataFlag

unfoldable pub empty : FlagCollection → Bool
empty c = is_empty c.unions && is_empty c.intersections && is_empty c.exclusions

-- TakeUnion, TakeIntersection and Exclude of flags.
unfoldable pub take_union_flags : List MetadataFlag → FlagCollection → FlagCollection
take_union_flags flags c = record c { unions = c.unions ++ flags }

unfoldable pub take_intersection_flags : List MetadataFlag → FlagCollection → FlagCollection
take_intersection_flags flags c = record c { intersections = c.intersections ++ flags }

unfoldable pub exclude_flags : List MetadataFlag → FlagCollection → FlagCollection
exclude_flags flags c = record c { exclusions = c.exclusions ++ flags }

-- TakeUnion, TakeIntersection and Exclude of a collection, which are also +, * and -.
unfoldable pub take_union : FlagCollection → FlagCollection → FlagCollection
take_union other c = record c {
  unions = c.unions ++ other.unions;
  exclusions = c.exclusions ++ other.exclusions;
}

unfoldable pub take_intersection : FlagCollection → FlagCollection → FlagCollection
take_intersection other c = record c {
  intersections = c.intersections ++ other.intersections;
  exclusions = c.exclusions ++ other.exclusions;
}

unfoldable pub exclude : FlagCollection → FlagCollection → FlagCollection
exclude other c = record c {
  exclusions = c.exclusions ++ (other.unions ++ (other.intersections ++ other.exclusions));
}

unfoldable pub match_flags : FlagCollection → List Bool → Bool
match_flags c bits =
    all_flags_set bits c.intersections
    && (is_empty c.unions || any_flags_set bits c.unions)
    && no_flags_set bits c.exclusions

-- Insertion into a set of variables.
unfoldable pub insert : ℕ → List ℕ → List ℕ
insert v [] = v ∷ []
insert v (w ∷ ws) =
    let rest = insert v ws in if v == w then w ∷ ws else if ltb v w then v ∷ w ∷ ws else w ∷ rest

unfoldable pub insert_all : List ℕ → List ℕ → List ℕ
insert_all [] out = out
insert_all (v ∷ vs) out = insert_all vs (insert v out)

module _ (metadata : ℕ → List Bool) where
  unfoldable pub insert_required : FlagCollection → List ℕ → List ℕ → List ℕ
  insert_required c [] out = out
  insert_required c (v ∷ vs) out = insert_required c vs (
      if all_flags_set (metadata v) c.intersections
        && not (not (is_empty c.exclusions) && any_flags_set (metadata v) c.exclusions)
        && (is_empty c.unions || any_flags_set (metadata v) c.unions)
      then insert v out
      else out)

  unfoldable pub insert_not_excluded : FlagCollection → List ℕ → List ℕ → List ℕ
  insert_not_excluded c [] out = out
  insert_not_excluded c (v ∷ vs) out = insert_not_excluded c vs (
      if not (not (is_empty c.exclusions) && any_flags_set (metadata v) c.exclusions)
      then insert v out
      else out)

  unfoldable pub insert_unions :
      FlagCollection → (MetadataFlag → List ℕ) → List MetadataFlag → List ℕ → List ℕ
  insert_unions c metadata_map [] out = out
  insert_unions c metadata_map (f ∷ fs) out =
      insert_unions c metadata_map fs (insert_not_excluded c (metadata_map f) out)

  -- By a flag that is required where there is one.
  unfoldable pub get_by_intersections :
      FlagCollection → (MetadataFlag → List ℕ) → List MetadataFlag → List ℕ
  get_by_intersections c metadata_map [] = insert_unions c metadata_map c.unions []
  get_by_intersections c metadata_map (first_required ∷ others) =
      insert_required c (metadata_map first_required) []

  -- `name_map` has all variables, `metadata_map` those with each flag.
  unfoldable pub get_by_flag : FlagCollection → List ℕ → (MetadataFlag → List ℕ) → List ℕ
  get_by_flag c name_map metadata_map =
      if empty c
      then insert_all name_map []
      else get_by_intersections c metadata_map c.intersections
