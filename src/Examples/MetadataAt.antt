-- ===== src/Examples/MetadataAt.antt =====
-- Concrete metadata for the theorems on src/interface/metadata.hpp and .cpp and src/interface/meshblock_data.cpp.
use parthenon.Base.{
  ℕ, ◌<◌, ◌==◌, ◌&&◌, ◌||◌, not, if◌then◌else◌, Bool, true, false, List, [], ◌∷◌, length, ok, ◌≡◌,
  refl, arith, ◌↔◌, contains, Bool-cases, inl, inr,
}
use parthenon.Base.Int.{ℤ, pos}
use parthenon.Base.Chars.{codes}
use parthenon.Metadata.{
  Metadata, MetadataFlag, FlagCollection, cell, fill_ghost, independent, vector, sparse, flux,
  topologies, roles, types, is_set, do_bit, resize, count_set, flags, has_same_flags, location,
  data_type, role, is_mesh_tied, has_refinement_ops, valid_coordinates, is_valid, set_bits,
  set_default, with_defaults, checked, filled, construct, equals, IsValid, is_default, IsAdmissible,
  Only, insert, empty, is_empty, match_flags, has_same_flags-is_set, construct-IsValid,
  construct-IsAdmissible, construct-Only, construct-flags,
}
use parthenon.Variables.{
  Variable, MeshBlockData, is_wanted, indexed, add, add_all, cleared, with_or_without,
  get_variables_by_flag, get_variables_by_flag-match_flags,
}

abbrev asked_flags : List MetadataFlag
asked_flags = cell ∷ independent ∷ fill_ghost ∷ vector ∷ []

abbrev three : List ℤ
three = pos 3 ∷ []

abbrev average : List ℕ
average = codes "average"

abbrev velocity : Metadata
velocity = filled asked_flags three [] [] average

velocity_constructed : construct asked_flags three [] [] average ≡ ok velocity
unfolding construct checked filled is_valid valid_coordinates is_mesh_tied location count_set is_set
    with_defaults set_default set_bits do_bit resize has_refinement_ops
velocity_constructed = refl

has_same_flags-is_set_example :
    (has_same_flags (true ∷ []) (true ∷ false ∷ []) ≡ true)
    ↔ ((f : MetadataFlag) → is_set (true ∷ []) f ≡ is_set (true ∷ false ∷ []) f)
has_same_flags-is_set_example = has_same_flags-is_set (true ∷ []) (true ∷ false ∷ [])

construct-IsAdmissible_example :
    ((m : Metadata) × (construct asked_flags three [] [] average ≡ ok m))
    ↔ IsAdmissible asked_flags three [] average
construct-IsAdmissible_example = construct-IsAdmissible asked_flags three [] [] average

construct-IsValid_example :
    IsValid velocity
    × (velocity.shape ≡ three)
    × ((f : MetadataFlag)
        → is_set velocity.bits f ≡ contains f asked_flags || is_default f asked_flags)
construct-IsValid_example =
    construct-IsValid asked_flags three [] [] average velocity velocity_constructed

construct-Only_example :
    ((f : MetadataFlag) × (location velocity.bits ≡ ok f) × Only velocity.bits topologies f)
    × ((f : MetadataFlag) × (data_type velocity.bits ≡ ok f) × Only velocity.bits types f)
    × ((f : MetadataFlag) × (role velocity.bits ≡ ok f) × Only velocity.bits roles f)
construct-Only_example =
    construct-Only asked_flags three [] [] average velocity velocity_constructed

is_set_lt : (bits : List Bool) (f : ℕ) → is_set bits f ≡ true → f < length bits
unfolding is_set
is_set_lt bits f h = ground arith

velocity_flags : (f : MetadataFlag) → is_set velocity.bits f ≡ true → f < 35
unfolding filled with_defaults set_default set_bits do_bit resize count_set is_set
velocity_flags f h = omega (arith, is_set_lt velocity.bits f h)

construct-flags_example :
    (again : Metadata) × (construct (flags 35 velocity.bits) three [] [] velocity.refinement_funcs
      ≡ ok again)
    × (equals velocity again ≡ true)
unfolding filled
construct-flags_example =
    construct-flags asked_flags three [] [] average velocity 35 velocity_constructed velocity_flags

-- The variable 1 is at the cells, the variable 2 at the faces and sparse.
abbrev two_variables : ℕ → Variable
two_variables v =
    if v == 1
    then record { bits = false ∷ false ∷ true ∷ []; sparse_id = pos 0; flux_name = 0 }
    else record {
      bits = do_bit sparse true (false ∷ false ∷ false ∷ true ∷ []);
      sparse_id = pos 7;
      flux_name = 0;
    }

abbrev both_added : MeshBlockData
both_added = indexed 35 two_variables 1 (indexed 35 two_variables 2 cleared)

two_bounded : (v : ℕ) (f : MetadataFlag) → is_set (two_variables v).bits f ≡ true → f < 35
unfolding do_bit resize
two_bounded v f h = elim (Bool-cases (v == 1)) [
  | inl e ↦
      let set : is_set (false ∷ false ∷ true ∷ []) f ≡ true = rw e at h in
      omega (arith, is_set_lt (false ∷ false ∷ true ∷ []) f set)
  | inr e ↦
      let bits = do_bit sparse true (false ∷ false ∷ false ∷ true ∷ []) in
      let set : is_set bits f ≡ true = rw e at h in omega (arith, is_set_lt bits f set)
]

abbrev at_cells : FlagCollection
at_cells = record { unions = []; intersections = cell ∷ []; exclusions = [] }

two_added : add_all 35 two_variables (2 ∷ 1 ∷ []) cleared ≡ ok both_added
unfolding add_all add insert
two_added = refl

get_variables_by_flag-match_flags_example :
    (out : List ℕ) × (get_variables_by_flag two_variables at_cells []
        (with_or_without false)
        both_added
      ≡ ok out)
    × ((v : ℕ)
        → contains v out ≡ (
            if empty at_cells
              || not (is_empty at_cells.intersections)
              || not (is_empty at_cells.unions)
            then contains v (2 ∷ 1 ∷ [])
              && match_flags at_cells (two_variables v).bits
              && (false || not (is_set (two_variables v).bits flux))
              && is_wanted two_variables [] v
            else false))
get_variables_by_flag-match_flags_example =
    get_variables_by_flag-match_flags 35 two_variables (2 ∷ 1 ∷ []) both_added at_cells false []
      two_bounded two_added
