-- ===== src/Ownership/Determine.antt =====
-- DetermineOwnership of src/mesh/forest/block_ownership.cpp, with the order of the blocks that it and the
-- comparison of src/mesh/forest/logical_location.hpp use. `newly_refined` is the list of the blocks in the set.
use parthenon.Base.{
  ℕ, ◌^◌, ◌<◌, ◌≤◌, not, ◌||◌, if◌then◌else◌, Bool, true, false, List, [], ◌∷◌, Result, ok, err,
  ◌>>=◌, ◌≡◌, refl, sym, subst, arith,
}
use parthenon.Base.Int.{ℤ, pos, negsuc, pos_part, neg_part, ◌-ℤ◌, ltb_ℤ, eqb_ℤ, times, -ℤ_parts}
use parthenon.Location.Defs.{LogicalLocation, Error, is_neighbor_of_te}
use parthenon.Forest.Transformation.{LogicalCoordinateTransformation}
use parthenon.Morton.Word.{of_int}
use parthenon.Morton.Number.{
  MortonNumber, morton, morton_less, morton_equal, morton_less-asym, morton_less_total,
  morton-injective,
}
use parthenon.Ownership.Mask.{Offset, low, mid, high, BlockOwnership, update}

pub record NeighborLocation : Type 0 where
  -- The location in the tree of the neighbour, and in the coordinates of the main block's tree.
  pub global_loc : LogicalLocation
  pub origin_loc : LogicalLocation
  pub lcoord_trans : LogicalCoordinateTransformation

unfoldable pub morton_of : LogicalLocation → MortonNumber
morton_of a = morton (pos_part a.level) (of_int a.lx1) (of_int a.lx2) (of_int a.lx3)

unfoldable pub is_refined : List LogicalLocation → LogicalLocation → Bool
is_refined [] a = false
is_refined (b ∷ bs) a = parthenon.Location.Defs.eqb a b || is_refined bs a

unfoldable pub ownership_level : List LogicalLocation → LogicalLocation → ℤ
ownership_level newly_refined a =
    if is_refined newly_refined a then times a.level 2 -ℤ pos 1 else times a.level 2

unfoldable pub ownership_less_than : List LogicalLocation → LogicalLocation → LogicalLocation → Bool
ownership_less_than newly_refined a b =
    let la = ownership_level newly_refined a in
    let lb = ownership_level newly_refined b in
    if not (eqb_ℤ la lb)
    then ltb_ℤ la lb
    else (if not (eqb_ℤ a.tree b.tree)
        then ltb_ℤ a.tree b.tree
        else morton_less (morton_of a) (morton_of b))

-- The comparison of two locations in a sorted list of blocks.
unfoldable pub location_less : LogicalLocation → LogicalLocation → Bool
location_less a b =
    if not (eqb_ℤ a.tree b.tree)
    then ltb_ℤ a.tree b.tree
    else (if not (morton_equal (morton_of a) (morton_of b))
        then morton_less (morton_of a) (morton_of b)
        else ltb_ℤ a.level b.level)

abbrev pub to_ℤ : Offset → ℤ
to_ℤ low = negsuc 0
to_ℤ mid = pos 0
to_ℤ high = pos 1

-- The loop over the neighbours, for one flag.
unfoldable pub owns_at :
    List LogicalLocation → LogicalLocation → ℤ × ℤ × ℤ → List NeighborLocation → Result Error Bool
owns_at newly_refined main te [] = ok true
owns_at newly_refined main te (n ∷ ns) =
    let rest = owns_at newly_refined main te ns in
    if ownership_less_than newly_refined main n.global_loc
    then elim (is_neighbor_of_te main n.origin_loc te) [
      | err e ↦ err e
      | ok b ↦ if b then ok false else rest
    ]
    else rest

-- A loop over -1, 0 and 1 whose body may fail.
abbrev pub for_each :
    (Offset → BlockOwnership → Result Error BlockOwnership)
    → BlockOwnership
    → Result Error BlockOwnership
for_each f a = f low a >>= (λ b. f mid b >>= f high)

-- The flags before the loops.
abbrev pub unowned : BlockOwnership
unowned i j k = false

unfoldable pub determine_ownership :
    LogicalLocation → List NeighborLocation → List LogicalLocation → Result Error BlockOwnership
determine_ownership main allowed_neighbors newly_refined =
    for_each
      (λ i. for_each (λ j. for_each (λ k a.
        owns_at newly_refined main (to_ℤ i, to_ℤ j, to_ℤ k) allowed_neighbors >>= λ v.
        ok (update i j k v a))))
      unowned

-- A block inside its tree, at a level whose sizes fit an int.
abbrev pub IsBlock : LogicalLocation → Type 0
IsBlock a =
    (neg_part a.level ≡ 0)
    × (pos_part a.level ≤ 30)
    × (neg_part a.lx1 ≡ 0)
    × (pos_part a.lx1 < 2 ^ pos_part a.level)
    × (neg_part a.lx2 ≡ 0)
    × (pos_part a.lx2 < 2 ^ pos_part a.level)
    × (neg_part a.lx3 ≡ 0)
    × (pos_part a.lx3 < 2 ^ pos_part a.level)

level_of :
    (r : List LogicalLocation) (a b : LogicalLocation)
    → neg_part a.level ≡ 0
    → neg_part b.level ≡ 0
    → eqb_ℤ (ownership_level r a) (ownership_level r b) ≡ true
    → pos_part a.level ≡ pos_part b.level
unfolding ownership_level
level_of r a b ha hb e =
    ground (arith, -ℤ_parts (times a.level 2) (pos 1), -ℤ_parts (times b.level 2) (pos 1))

natural : (z : ℤ) → neg_part z ≡ 0 → z ≡ pos (pos_part z)
natural (pos n) h = refl
natural (negsuc n) h = absurd (omega arith)

morton_of-injective :
    (a b : LogicalLocation)
    → IsBlock a
    → IsBlock b
    → pos_part a.level ≡ pos_part b.level
    → eqb_ℤ a.tree b.tree ≡ true
    → morton_equal (morton_of a) (morton_of b) ≡ true
    → parthenon.Location.Defs.eqb a b ≡ true
unfolding morton_of parthenon.Location.Defs.eqb
morton_of-injective a b (la, ka, x, bx, y, by', z, bz) (lb, kb, x', bx', y', by'', z', bz') e t m =
    let at_b : ℕ → Type 0 = λ k.
      morton_equal (morton_of a) (morton k (of_int b.lx1) (of_int b.lx2) (of_int b.lx3)) ≡ true in
    let m' : morton_equal
          (morton (pos_part a.level) (of_int (pos (pos_part a.lx1))) (of_int (pos (pos_part a.lx2)))
            (of_int (pos (pos_part a.lx3))))
          (morton (pos_part a.level) (of_int (pos (pos_part b.lx1))) (of_int (pos (pos_part b.lx2)))
            (of_int (pos (pos_part b.lx3))))
        ≡ true =
      (rw
        (
          sym (natural a.lx1 x),
          sym (natural a.lx2 y),
          sym (natural a.lx3 z),
          sym (natural b.lx1 x'),
          sym (natural b.lx2 y'),
          sym (natural b.lx3 z'),
        )
        (subst at_b (sym e) m)) in
    let (p, q, r) =
      morton-injective (pos_part a.level) (pos_part a.lx1) (pos_part a.lx2) (pos_part a.lx3)
        (pos_part b.lx1) (pos_part b.lx2) (pos_part b.lx3) (omega arith) (bx, by', bz)
        (rw e bx', rw e by'', rw e bz') m' in
    ground arith

pub ownership_less_than-asym :
    (r : List LogicalLocation) (a b : LogicalLocation)
    → ownership_less_than r a b ≡ true
    → ownership_less_than r b a ≡ false
unfolding ownership_less_than
ownership_less_than-asym r a b h = ground (arith, morton_less-asym (morton_of a) (morton_of b))

-- C
pub ownership_less_than_total :
    (r : List LogicalLocation) (a b : LogicalLocation)
    → IsBlock a
    → IsBlock b
    → parthenon.Location.Defs.eqb a b ≡ false
    → ownership_less_than r a b ≡ not (ownership_less_than r b a)
unfolding ownership_less_than
ownership_less_than_total r a b ha hb d = ground (
  arith,
  ownership_less_than-asym r a b,
  morton_less_total (morton_of a) (morton_of b),
  level_of r a b,
  morton_of-injective a b ha hb,
)
