-- ===== src/Examples/OwnershipAt.antt =====
-- Concrete blocks for the theorems on src/utils/morton_number.hpp and src/mesh/forest/block_ownership.cpp.
use parthenon.Base.{
  ℕ, zero, suc, ◌+◌, ◌*◌, ◌/◌, ◌%◌, ◌^◌, ◌<◌, ◌≤◌, ◌==◌, not, ◌&&◌, if◌then◌else◌, Bool, true,
  false, some, List, [], ◌∷◌, Result, ok, ◌≡◌, refl, arith, All,
}
use parthenon.Base.Int.{pos}
use parthenon.Location.Defs.{LogicalLocation, is_neighbor_of_te, touches_te, max_ℤ}
use parthenon.Forest.Transformation.{axes, x123, LogicalCoordinateTransformation}
use parthenon.Morton.Word.{Word, equal}
use parthenon.Morton.Interleave.{
  spread, interleave_constant, stage, interleave_zeros, interleave_zeros-at,
}
use parthenon.Morton.Number.{get_morton_bits, morton, morton_equal, morton-injective}
use parthenon.Ownership.Mask.{Offset, low, mid, high, BlockOwnership}
use parthenon.Ownership.Determine.{NeighborLocation, to_ℤ, determine_ownership}
use parthenon.Ownership.Exclusive.{
  outranked, determine_ownership-outranked, determine_ownership_disjoint,
}

abbrev third_bit : Word
third_bit n = n == 2

interleave_zeros-at_example : interleave_zeros third_bit 6 ≡ true
interleave_zeros-at_example = interleave_zeros-at third_bit (λ n h. ground arith) 6 (omega arith)

abbrev place : ℕ × ℕ × ℕ
place = (1, 2, 3)

morton-injective_example : (place.0 ≡ 1) × (place.1 ≡ 2) × (place.2 ≡ 3)
unfolding morton morton_equal get_morton_bits equal interleave_zeros stage interleave_constant
    spread
morton-injective_example =
    morton-injective 2 1 2 3 1 2 3 (omega arith) (omega arith, omega arith, omega arith)
      (omega arith, omega arith, omega arith) refl

-- Two neighbours at level 1, of which the second has the higher Morton number.
abbrev left_block : LogicalLocation
left_block = record { tree = pos 0; level = pos 1; lx1 = pos 0; lx2 = pos 0; lx3 = pos 0 }

abbrev right_block : LogicalLocation
right_block = record { tree = pos 0; level = pos 1; lx1 = pos 1; lx2 = pos 0; lx3 = pos 0 }

abbrev same_tree : LogicalCoordinateTransformation
same_tree = record {
  use_offset = false;
  offset = record { x1 = pos 0; x2 = pos 0; x3 = pos 0 };
  dir_connection = axes x123;
  dir_flip = record { x1 = false; x2 = false; x3 = false };
}

abbrev neighbor : LogicalLocation → NeighborLocation
neighbor a = record { global_loc = a; origin_loc = a; lcoord_trans = same_tree }

determine_ownership-outranked_example :
    (x : BlockOwnership) × (determine_ownership left_block (neighbor right_block ∷ []) [] ≡ ok x)
    × ((i j k : Offset)
        → x i j k
          ≡ not (outranked [] left_block (to_ℤ i, to_ℤ j, to_ℤ k) (neighbor right_block ∷ [])))
determine_ownership-outranked_example =
    determine_ownership-outranked [] left_block (neighbor right_block ∷ []) (refl, tt)

-- The face between the two blocks.
determine_ownership_disjoint_example :
    (x : BlockOwnership) × (y : BlockOwnership) × (determine_ownership left_block
        (neighbor right_block ∷ [])
        []
      ≡ ok x)
    × (determine_ownership right_block (neighbor left_block ∷ []) [] ≡ ok y)
    × (x high mid mid && y low mid mid ≡ false)
unfolding is_neighbor_of_te touches_te max_ℤ parthenon.Location.Defs.eqb parthenon.Base.Int.◌+ℤ◌
    parthenon.Base.Int.◌-ℤ◌
determine_ownership_disjoint_example =
    determine_ownership_disjoint [] left_block right_block (neighbor right_block ∷ [])
      (neighbor left_block ∷ []) 0 0 (neighbor right_block) (neighbor left_block) high mid mid low
      mid mid (refl, omega arith, refl, omega arith, refl, omega arith, refl, omega arith)
      (refl, omega arith, refl, omega arith, refl, omega arith, refl, omega arith) refl (refl, tt)
      (refl, tt) refl refl refl refl refl refl
