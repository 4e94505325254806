-- ===== src/Ownership/Exclusive.antt =====
-- What DetermineOwnership of src/mesh/forest/block_ownership.cpp gives, and that no two blocks own the same element.
use parthenon.Base.{
  ℕ, zero, suc, not, ◌&&◌, ◌||◌, Bool, true, false, some, List, [], ◌∷◌, get_elem?, Result, ok, err,
  ◌>>=◌, ◌≡◌, refl, arith, All,
}
use parthenon.Base.Int.{ℤ, eqb_ℤ}
use parthenon.Location.Defs.{LogicalLocation, Error, is_neighbor_of_te}
use parthenon.Ownership.Mask.{Offset, low, mid, high, BlockOwnership, update, each}
use parthenon.Ownership.Reading.{each-update}
use parthenon.Ownership.Determine.{
  NeighborLocation, ownership_less_than, to_ℤ, owns_at, for_each, determine_ownership, unowned,
  IsBlock, ownership_less_than_total,
}

-- A neighbour in the coordinates of the block's own tree.
abbrev pub IsLocal : LogicalLocation → NeighborLocation → Type 0
IsLocal main n = eqb_ℤ main.tree n.origin_loc.tree ≡ true

abbrev pub touches_element : LogicalLocation → ℤ × ℤ × ℤ → LogicalLocation → Bool
touches_element main te a = elim (is_neighbor_of_te main a te) [ ok b ↦ b | err e ↦ false ]

-- The neighbour touches the element and has the higher ownership.
abbrev pub outranks : List LogicalLocation → LogicalLocation → ℤ × ℤ × ℤ → NeighborLocation → Bool
outranks newly_refined main te n =
    ownership_less_than newly_refined main n.global_loc && touches_element main te n.origin_loc

abbrev pub outranked :
    List LogicalLocation → LogicalLocation → ℤ × ℤ × ℤ → List NeighborLocation → Bool
outranked newly_refined main te [] = false
outranked newly_refined main te (n ∷ ns) =
    outranks newly_refined main te n || outranked newly_refined main te ns

local_ok :
    (a b : LogicalLocation) (te : ℤ × ℤ × ℤ)
    → eqb_ℤ a.tree b.tree ≡ true
    → is_neighbor_of_te a b te ≡ ok (touches_element a te b)
unfolding is_neighbor_of_te
local_ok a b te h = ground arith

owns_at-outranked :
    (r : List LogicalLocation) (main : LogicalLocation) (te : ℤ × ℤ × ℤ)
    (ns : List NeighborLocation)
    → All (IsLocal main) ns
    → owns_at r main te ns ≡ ok (not (outranked r main te ns))
unfolding owns_at
owns_at-outranked r main te [] h = refl
owns_at-outranked r main te (n ∷ ns) h =
    let rest = owns_at-outranked r main te ns h.1 in
    let here = local_ok main n.origin_loc te h.0 in ground (arith, rest, here)

for_each-ok :
    (f : Offset → BlockOwnership → Result Error BlockOwnership)
    (g : Offset → BlockOwnership → BlockOwnership)
    → ((i : Offset) (a : BlockOwnership) → f i a ≡ ok (g i a))
    → (a : BlockOwnership) → for_each f a ≡ ok (each g a)
for_each-ok f g h a = rw (h low a, h mid (g low a), h high (g mid (g low a))) refl

-- Where all neighbours are given in the coordinates of the block, DetermineOwnership succeeds, and
-- a flag is set just when no neighbour both has the higher ownership and touches that element.
pub determine_ownership-outranked :
    (r : List LogicalLocation) (main : LogicalLocation) (ns : List NeighborLocation)
    → All (IsLocal main) ns
    → (x : BlockOwnership) × (determine_ownership main ns r ≡ ok x)
      × ((i j k : Offset) → x i j k ≡ not (outranked r main (to_ℤ i, to_ℤ j, to_ℤ k) ns))
unfolding determine_ownership
determine_ownership-outranked r main ns h =
    let v : BlockOwnership = λ i j k. not (outranked r main (to_ℤ i, to_ℤ j, to_ℤ k) ns) in
    let one : (i j k : Offset) (a : BlockOwnership)
        → (owns_at r main (to_ℤ i, to_ℤ j, to_ℤ k) ns >>= λ b. ok (update i j k b a))
          ≡ ok (update i j k (v i j k) a) =
      λ i j k a. rw (owns_at-outranked r main (to_ℤ i, to_ℤ j, to_ℤ k) ns h) refl in
    (
      each (λ i. each (λ j. each (λ k. update i j k (v i j k)))) unowned,
      for_each-ok _ _
          (λ i. for_each-ok _ _ (λ j. for_each-ok _ (λ k. update i j k (v i j k)) (one i j)))
          unowned,
      each-update v unowned,
    )

outranked-member :
    (r : List LogicalLocation) (main : LogicalLocation) (te : ℤ × ℤ × ℤ)
    (ns : List NeighborLocation) (p : ℕ) (n : NeighborLocation)
    → get_elem? ns p ≡ some n
    → outranks r main te n ≡ true
    → outranked r main te ns ≡ true
outranked-member r main te [] p n h e = cc
outranked-member r main te (m ∷ ns) zero n h e = ground arith
outranked-member r main te (m ∷ ns) (suc p) n h e =
    ground (arith, outranked-member r main te ns p n)

-- Of two different blocks inside their trees, at levels from 0 to 30, that each list the other
-- among their neighbours, all neighbours being given in the coordinates of the block:
-- DetermineOwnership succeeds for both, and an element of the one that touches the other and an
-- element of the other that touches the one, such as an element that they share, are not both
-- owned.
pub determine_ownership_disjoint :
    (r : List LogicalLocation) (a b : LogicalLocation) (ns ms : List NeighborLocation) (p q : ℕ)
    (n m : NeighborLocation) (i j k i' j' k' : Offset)
    → IsBlock a
    → IsBlock b
    → parthenon.Location.Defs.eqb a b ≡ false
    → All (IsLocal a) ns
    → All (IsLocal b) ms
    → get_elem? ns p ≡ some n
    → n.global_loc ≡ b
    → touches_element a (to_ℤ i, to_ℤ j, to_ℤ k) n.origin_loc ≡ true
    → get_elem? ms q ≡ some m
    → m.global_loc ≡ a
    → touches_element b (to_ℤ i', to_ℤ j', to_ℤ k') m.origin_loc ≡ true
    → (x : BlockOwnership) × (y : BlockOwnership) × (determine_ownership a ns r ≡ ok x)
      × (determine_ownership b ms r ≡ ok y)
      × (x i j k && y i' j' k' ≡ false)
determine_ownership_disjoint r a b ns ms p q n m i j k i' j' k' ha hb d la lb en ea ta em eb tb =
    let (x, ex, fx) = determine_ownership-outranked r a ns la in
    let (y, ey, fy) = determine_ownership-outranked r b ms lb in
    let total = ownership_less_than_total r a b ha hb d in
    let above = outranked-member r a (to_ℤ i, to_ℤ j, to_ℤ k) ns p n en in
    let below = outranked-member r b (to_ℤ i', to_ℤ j', to_ℤ k') ms q m em in
    let here = fx i j k in
    let there = fy i' j' k' in
    (x, y, ex, ey, ground (arith, here, there, above, below, total, ea, eb))
