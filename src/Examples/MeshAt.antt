-- ===== src/Examples/MeshAt.antt =====
-- Concrete locations, trees and costs for the theorems on src/mesh/.
use parthenon.Base.{
  ℕ, zero, suc, ◌+◌, ◌-◌, ◌<◌, if◌then◌else◌, Bool, true, false, Option, none, some, List, [], ◌∷◌,
  length, set, Result, ok, err, ◌≡◌, ◌≢◌, ◌⊎◌, refl, arith, All, ◌^◌, not, Bool-cases, inl, inr,
  ltb, ◌==◌,
}
use parthenon.Base.Int.{ℤ, pos, negsuc, pos_part, shr, ltb_ℤ}
use parthenon.Location.Defs.{LogicalLocation, eqb, get_parent, get_daughter, get_daughters}
use parthenon.Location.Parent.{IsWithin, get_parent-get_daughter}
use parthenon.Balance.Assign.{
  Costs, assign_blocks, assign, total, Stepwise, EndsAt, assign_blocks-Stepwise,
}
use parthenon.Balance.BlockList.{Holds, entry, update_block_list, update_block_list-Holds}
use parthenon.Forest.LocMap.{find, count, eqb-eq}
use parthenon.Forest.Transformation.{
  Triple, LogicalCoordinateTransformation, transform, inverse_transform, axes, x213,
  inverse_transform-transform,
}
use parthenon.Forest.Transformation.Elements.{
  transform_ijk, inverse_transform_ijk, inverse_transform_ijk-transform_ijk,
}
use parthenon.Forest.Tree.{Tree, Forest, refine_only, derefine, refine}
use parthenon.Forest.Tree.Derefine.{among, derefine-refine_only}
use parthenon.Forest.Tree.Fuel.{IsRooted, ids, refine-terminates}

abbrev block : ℕ → ℤ → LogicalLocation
block level l = record { tree = pos 0; level = pos level; lx1 = l; lx2 = pos 0; lx3 = pos 0 }

block-IsWithin : IsWithin 2 (block 2 (pos 3))
block-IsWithin = record {
  at_depth = refl;
  low1 = omega arith;
  low2 = omega arith;
  low3 = omega arith;
  up1 = omega arith;
  up2 = omega arith;
  up3 = omega arith;
}

get_parent-get_daughter_example :
    get_parent 1 (get_daughter (block 2 (pos 3)) 1 0 1) ≡ block 2 (pos 3)
get_parent-get_daughter_example =
    get_parent-get_daughter 2 (block 2 (pos 3)) 1 0 1 (omega arith) block-IsWithin (omega arith)
      (omega arith) (omega arith)

-- Whole numbers as costs; six of them are shared by two.
abbrev halves : ℕ → ℕ → ℕ
halves a (suc (suc zero)) = if a == 6 then 3 else a
halves a n = a

abbrev counts : Costs
counts = record {
  Cost = ℕ;
  zero_cost = 0;
  add = λ a b. a + b;
  sub = λ a b. a - b;
  share = halves;
  at_least = λ a b. not (ltb a b);
  is_zero = λ a. a == 0;
}

abbrev costs : List ℕ
costs = 1 ∷ 2 ∷ 1 ∷ 2 ∷ []

abbrev ranks : List ℕ
ranks = 0 ∷ 0 ∷ 1 ∷ 1 ∷ []

four_blocks : assign_blocks counts 2 costs ≡ ok ranks
unfolding assign_blocks assign total
four_blocks = refl

assign_blocks-Stepwise_example : Stepwise ranks × EndsAt 1 ranks × (length ranks ≡ length costs)
assign_blocks-Stepwise_example = assign_blocks-Stepwise counts 2 costs four_blocks

-- The first two directions are swapped, one of them flipped, and the neighbour is one tree along.
abbrev swapped : LogicalCoordinateTransformation
swapped = record {
  use_offset = true;
  offset = record { x1 = pos 1; x2 = pos 0; x3 = pos 0 };
  dir_connection = axes x213;
  dir_flip = record { x1 = true; x2 = false; x3 = false };
}

inverse_transform-transform_example :
    inverse_transform swapped (transform swapped (block 2 (pos 4)) (pos 1)) (pos 0)
    ≡ block 2 (pos 4)
inverse_transform-transform_example =
    inverse_transform-transform swapped x213 (block 2 (pos 4)) (pos 1) refl refl

abbrev cell : Triple ℤ
cell = record { x1 = pos 1; x2 = pos 2; x3 = pos 3 }

inverse_transform_ijk-transform_ijk_example :
    inverse_transform_ijk (pos 8) swapped (transform_ijk (pos 8) swapped cell) ≡ cell
inverse_transform_ijk-transform_ijk_example =
    inverse_transform_ijk-transform_ijk (pos 8) swapped x213 cell refl

-- A tree with one block.
abbrev one_block : Tree
one_block = record {
  my_id = pos 0;
  ndim = 1;
  leaves = (block 0 (pos 0), (pos 5, negsuc 0)) ∷ [];
  internal_nodes = [];
  neighbors = λ n. [];
}

found : find (block 0 (pos 0)) one_block.leaves ≡ some (pos 5, negsuc 0)
unfolding find eqb
found = refl

no_daughter : among (block 0 (pos 0)) (get_daughters 1 (block 0 (pos 0))) ≡ false
unfolding get_daughters get_daughter eqb parthenon.Base.Int.◌+ℤ◌
no_daughter = refl

other : (d : LogicalLocation) → eqb d (block 0 (pos 0)) ≡ false → count d one_block.leaves ≡ false
unfolding find
other d e = rw e

fresh :
    (d : LogicalLocation)
    → among d (get_daughters 1 (block 0 (pos 0))) ≡ true
    → count d one_block.leaves ≡ false
fresh d h = elim (Bool-cases (eqb d (block 0 (pos 0)))) [
  | inl e ↦ let same = eqb-eq d (block 0 (pos 0)) e in absurd (ground (arith, no_daughter, same))
  | inr e ↦ other d e
]

derefine-refine_only_example :
    (refined : Forest) × (back : Tree) × (n : ℕ) × (refine_only (one_block ∷ []) 0 (block 0 (pos 0))
      ≡ ok (refined, n))
    × (derefine false refined 0 (block 0 (pos 0)) ≡ ok (set (one_block ∷ []) 0 back, n))
    × ((x : LogicalLocation)
        → find x back.leaves
          ≡ (if eqb x (block 0 (pos 0)) then some (pos 5, negsuc 0) else find x one_block.leaves))
    × ((x : LogicalLocation)
        → find x back.internal_nodes
          ≡ (if eqb x (block 0 (pos 0)) then none else find x one_block.internal_nodes))
derefine-refine_only_example =
    derefine-refine_only (one_block ∷ []) 0 (block 0 (pos 0)) one_block (pos 5, negsuc 0) refl refl
      found (omega arith, omega arith) fresh

one_block-IsRooted : IsRooted one_block
unfolding find eqb
one_block-IsRooted a h = ground arith

refine-terminates_example :
    (r : Forest × ℕ) × (refine 2 (one_block ∷ []) 0 (block 0 (pos 0)) ≡ ok r)
    × All IsRooted r.0
    × (ids r.0 ≡ ids (one_block ∷ []))
refine-terminates_example =
    refine-terminates 2 (one_block ∷ []) 0 (block 0 (pos 0)) one_block (omega arith) refl refl
      (one_block-IsRooted, tt)

update_block_list-Holds_example :
    Holds (update_block_list ranks (0 ∷ 0 ∷ []) (0 ∷ 0 ∷ [])) 1 2
    × (entry (update_block_list ranks (0 ∷ 0 ∷ []) (0 ∷ 0 ∷ [])).1 1 ≡ 2)
update_block_list-Holds_example =
    update_block_list-Holds (0 ∷ 1 ∷ 1 ∷ []) (0 ∷ 0 ∷ []) (0 ∷ 0 ∷ [])
      (inl refl, (inr refl, (inl refl, tt)))
      (omega arith, (omega arith, (omega arith, (omega arith, tt)))) refl 2 1 refl
