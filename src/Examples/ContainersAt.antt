-- ===== src/Examples/ContainersAt.antt =====
-- Concrete containers for the theorems on src/utils/partition_stl_containers.hpp, concrete pools for those on
-- src/interface/sparse_pool.cpp and concrete names for those on src/interface/state_descriptor.cpp.
use parthenon.Base.{
  ℕ, ◌<◌, ◌&&◌, ◌||◌, not, if◌then◌else◌, Bool, true, false, none, some, List, [], ◌∷◌, length,
  Result, ok, err, ◌≡◌, refl, arith,
}
use parthenon.Base.Int.{ℤ, pos, eqb_ℤ}
use parthenon.Base.Chars.{codes, eqb}
use parthenon.Metadata.{
  Metadata, MetadataFlag, FlagCollection, cell, sparse, vector, is_set, do_bit, resize, count_set,
  flags, flags_from, set_flag, location, is_mesh_tied, has_refinement_ops, valid_coordinates,
  is_valid, set_bits, set_default, with_defaults, checked, filled, construct, IsValid,
  construct-IsValid, empty,
}
use parthenon.Packages.{
  SparseError, SparsePool, find_member, insert_member, apply_flag, add_impl, expected,
  add_impl-find_member, Declared, any_sparse, get_variable_names, by_name, by_dense, by_pool,
  IsListing, get_variable_names-IsListing,
}
use parthenon.Containers.{int_ceil, to_size_n, concat, Sized, to_size_n-Sized}

abbrev five : List ℕ
five = 10 ∷ 11 ∷ 12 ∷ 13 ∷ 14 ∷ []

to_size_n-Sized_example :
    (parts : List (List ℕ)) × (to_size_n five (pos 2) ≡ ok parts)
    × (concat parts ≡ five)
    × (int_ceil (pos 5) (pos 2) ≡ pos (length parts))
    × Sized 2 parts
to_size_n-Sized_example = to_size_n-Sized five 2 (omega arith) (omega arith)

abbrev shared : Metadata
shared = filled (cell ∷ sparse ∷ []) [] [] [] []

shared_constructed : construct (cell ∷ sparse ∷ []) [] [] [] [] ≡ ok shared
unfolding construct checked filled is_valid valid_coordinates is_mesh_tied location count_set is_set
    with_defaults set_default set_bits do_bit resize has_refinement_ops
shared_constructed = refl

shared-IsValid : IsValid shared
shared-IsValid = (construct-IsValid (cell ∷ sparse ∷ []) [] [] [] [] shared shared_constructed).0

is_set_lt : (bits : List Bool) (f : ℕ) → is_set bits f ≡ true → f < length bits
unfolding is_set
is_set_lt bits f h = ground arith

shared_flags : (f : MetadataFlag) → is_set shared.bits f ≡ true → f < 35
unfolding filled with_defaults set_default set_bits do_bit resize count_set is_set
shared_flags f h = omega (arith, is_set_lt shared.bits f h)

abbrev dust : SparsePool
dust = record {
  base_name = codes "dust";
  controller_base_name = [];
  shared_metadata = shared;
  pool = record { sparse_id = pos 3; metadata = shared } ∷ [];
}

abbrev pool_of : Result SparseError SparsePool → SparsePool
pool_of (ok p) = p
pool_of (err f) = dust

abbrev more_dust : SparsePool
more_dust = pool_of (add_impl 35 (pos 7) (pos 2 ∷ []) (some vector) [] dust)

dust_added : add_impl 35 (pos 7) (pos 2 ∷ []) (some vector) [] dust ≡ ok more_dust
unfolding add_impl apply_flag set_flag find_member insert_member flags flags_from construct checked
    filled is_valid valid_coordinates is_mesh_tied location count_set is_set with_defaults
    set_default set_bits do_bit resize has_refinement_ops
dust_added = refl

add_impl-find_member_example :
    (m : Metadata) × IsValid m
    × (find_member (pos 7) dust.pool ≡ none)
    × ((j : ℤ)
        → find_member j more_dust.pool
          ≡ (if eqb_ℤ j (pos 7) then some m else find_member j dust.pool))
    × ((f : MetadataFlag) → is_set m.bits f ≡ expected (some vector) f (is_set shared.bits f))
add_impl-find_member_example =
    add_impl-find_member 35 (pos 7) (pos 2 ∷ []) (some vector) [] dust more_dust shared-IsValid
      shared_flags dust_added

abbrev digit : ℤ → List ℕ
digit i = if eqb_ℤ i (pos 3) then codes "3" else codes "7"

abbrev declared : Declared
declared = record {
  fields = record { name = codes "p"; metadata = shared; controller = codes "p" } ∷ [];
  pools = dust ∷ [];
}

abbrev at_cells : FlagCollection
at_cells = record { unions = cell ∷ []; intersections = []; exclusions = [] }

abbrev dust_and_u : List (List ℕ)
dust_and_u = codes "dust" ∷ codes "u" ∷ codes "dust" ∷ []

no_sparse : any_sparse declared dust_and_u ≡ false
unfolding any_sparse eqb
no_sparse = refl

get_variable_names-IsListing_example :
    (out : List (List ℕ)) × (get_variable_names digit dust_and_u at_cells [] declared ≡ ok out)
    × IsListing out (λ x.
      by_name digit declared [] x dust_and_u
      || (not (empty at_cells)
          && (by_dense at_cells x declared.fields || by_pool digit [] at_cells x declared.pools)))
get_variable_names-IsListing_example =
    get_variable_names-IsListing digit declared [] dust_and_u at_cells no_sparse
