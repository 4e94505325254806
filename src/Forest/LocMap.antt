-- ===== src/Forest/LocMap.antt =====
-- LocMap_t of src/mesh/forest/tree.hpp: the unordered map from the locations of a tree to the current
-- and the previous gid, as a list of entries with different keys.
use parthenon.Base.{
  if◌then◌else◌, Bool, true, false, ◌&&◌, Option, none, some, List, [], ◌∷◌, ◌≡◌, refl, arith,
}
use parthenon.Base.Int.{ℤ, eqb_ℤ-eq, eqb_ℤ-refl}
use parthenon.Location.Defs.{LogicalLocation, eqb}

abbrev pub Gids : Type 0
Gids = ℤ × ℤ

abbrev pub LocMap : Type 0
LocMap = List (LogicalLocation × Gids)

pub eqb-eq : (a b : LogicalLocation) → eqb a b ≡ true → a ≡ b
unfolding eqb
eqb-eq a b h = ground (
  arith,
  eqb_ℤ-eq a.level b.level,
  eqb_ℤ-eq a.lx1 b.lx1,
  eqb_ℤ-eq a.lx2 b.lx2,
  eqb_ℤ-eq a.lx3 b.lx3,
  eqb_ℤ-eq a.tree b.tree,
)

pub eqb_refl : (a : LogicalLocation) → eqb a a ≡ true
unfolding eqb
eqb_refl a = ground (
  arith,
  eqb_ℤ-refl a.level,
  eqb_ℤ-refl a.lx1,
  eqb_ℤ-refl a.lx2,
  eqb_ℤ-refl a.lx3,
  eqb_ℤ-refl a.tree,
)

unfoldable pub find : LogicalLocation → LocMap → Option Gids
find a [] = none
find a ((b, g) ∷ m) = if eqb a b then some g else find a m

abbrev pub is_some : Option Gids → Bool
is_some none = false
is_some (some g) = true

-- count(loc), which is 0 or 1.
abbrev pub count : LogicalLocation → LocMap → Bool
count a m = is_some (find a m)

unfoldable pub erase : LogicalLocation → LocMap → LocMap
erase a [] = []
erase a ((b, g) ∷ m) = let rest = erase a m in if eqb a b then rest else (b, g) ∷ rest

-- insert, which leaves an entry that is there already.
unfoldable pub insert : LogicalLocation → Gids → LocMap → LocMap
insert a g m = if count a m then m else (a, g) ∷ m

-- The assignment through operator[] to an entry that is there.
unfoldable pub assign : LogicalLocation → Gids → LocMap → LocMap
assign a g [] = []
assign a g ((b, h) ∷ m) = if eqb a b then (b, g) ∷ m else (b, h) ∷ assign a g m

pub find-erase :
    (a b : LogicalLocation) (m : LocMap) → find a (erase b m) ≡ (if eqb a b then none else find a m)
unfolding find erase
find-erase a b [] = ground arith
find-erase a b ((c, g) ∷ m) =
    ground (arith, find-erase a b m, eqb-eq a b, eqb-eq b c, eqb-eq a c, eqb_refl a)

pub find-insert :
    (a b : LogicalLocation) (g : Gids) (m : LocMap)
    → find a (insert b g m)
      ≡ (if eqb a b && (if count b m then false else true) then some g else find a m)
unfolding find insert
find-insert a b g m = ground (arith, eqb-eq a b)

pub find-assign :
    (a b : LogicalLocation) (g : Gids) (m : LocMap)
    → count b m ≡ true
    → find a (assign b g m) ≡ (if eqb a b then some g else find a m)
unfolding find assign
find-assign a b g [] h = cc
find-assign a b g ((c, k) ∷ m) h =
    ground (arith, find-assign a b g m, eqb-eq a b, eqb-eq b c, eqb-eq a c, eqb_refl a, eqb_refl b)

-- A write to one map of locations leaves no other entry changed.
pub find-assign_absent :
    (a b : LogicalLocation) (g : Gids) (m : LocMap) → count b m ≡ false → assign b g m ≡ m
unfolding find assign
find-assign_absent a b g [] h = refl
find-assign_absent a b g ((c, k) ∷ m) h = ground (arith, find-assign_absent a b g m)
