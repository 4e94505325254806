-- ===== src/Location/Defs.antt =====
-- LogicalLocation of src/mesh/forest/logical_location.hpp and .cpp: the position of a block, as its
-- tree, its refinement level and its index in each direction at that level. The coordinates are
-- 64-bit numbers that do not wrap; where the source goes through `int` the model wraps at 32 bits.
-- A level is at most 30, so that `1 << level` fits an `int`.
use parthenon.Base.{
  ℕ, ◌+◌, ◌-◌, ◌*◌, ◌^◌, ltb, not, ◌&&◌, ◌||◌, if◌then◌else◌, Bool, true, false, List, [], ◌∷◌,
  ◌++◌, take, Result, ok, err,
}
use parthenon.Base.Int.{
  ℤ, pos, negsuc, pos_part, ◌+ℤ◌, ◌-ℤ◌, ltb_ℤ, leb_ℤ, eqb_ℤ, shl, shr, quot, rem, times, neg,
  wrap32,
}

pub record LogicalLocation : Type 0 where
  pub tree : ℤ
  pub level : ℤ
  pub lx1 : ℤ
  pub lx2 : ℤ
  pub lx3 : ℤ

unfoldable pub eqb : LogicalLocation → LogicalLocation → Bool
eqb a b =
    eqb_ℤ a.level b.level
    && eqb_ℤ a.lx1 b.lx1
    && eqb_ℤ a.lx2 b.lx2
    && eqb_ℤ a.lx3 b.lx3
    && eqb_ℤ a.tree b.tree

-- 1 << max(level, 0)
abbrev pub blocks : ℤ → ℕ
blocks level = 2 ^ pos_part level

unfoldable pub is_inside : ℤ → ℤ → ℤ → Bool
is_inside low up l = leb_ℤ low l && ltb_ℤ l up

unfoldable pub is_in_tree : ℕ → LogicalLocation → Bool
is_in_tree nghost a =
    let low = neg nghost in
    let up = wrap32 (pos (blocks a.level + nghost)) in
    is_inside low up a.lx1 && is_inside low up a.lx2 && is_inside low up a.lx3

unfoldable pub is_in_halo : ℕ → LogicalLocation → Bool
is_in_halo nghost a = is_in_tree nghost a && not (is_in_tree 0 a)

abbrev pub of_bool : Bool → ℕ
of_bool true = 1
of_bool false = 0

-- (l >= 0) - (l < up) + 1, which is never negative.
unfoldable pub side : ℕ → ℤ → ℕ
side up l = of_bool (leb_ℤ (pos 0) l) + 1 - of_bool (ltb_ℤ l (pos up))

unfoldable pub neighbor_tree_index : LogicalLocation → ℕ
neighbor_tree_index a =
    let up = blocks a.level in side up a.lx1 + 3 * side up a.lx2 + 9 * side up a.lx3

unfoldable pub is_contained_in : LogicalLocation → LogicalLocation → Bool
is_contained_in a container =
    if ltb_ℤ a.level container.level
    then false
    else (let shift = pos_part (a.level -ℤ container.level) in
        eqb_ℤ (shr a.lx1 shift) container.lx1
        && eqb_ℤ (shr a.lx2 shift) container.lx2
        && eqb_ℤ (shr a.lx3 shift) container.lx3)

unfoldable pub contains : LogicalLocation → LogicalLocation → Bool
contains a containee =
    if ltb_ℤ containee.level a.level
    then false
    else (let shift = pos_part (containee.level -ℤ a.level) in
        eqb_ℤ (shr containee.lx1 shift) a.lx1
        && eqb_ℤ (shr containee.lx2 shift) a.lx2
        && eqb_ℤ (shr containee.lx3 shift) a.lx3)

unfoldable pub get_same_level_offsets : LogicalLocation → LogicalLocation → ℤ × ℤ × ℤ
get_same_level_offsets a neighbor =
    let neigh = pos_part (neighbor.level -ℤ a.level) in
    let me = pos_part (a.level -ℤ neighbor.level) in
    (
      wrap32 (shr neighbor.lx1 neigh -ℤ shr a.lx1 me),
      wrap32 (shr neighbor.lx2 neigh -ℤ shr a.lx2 me),
      wrap32 (shr neighbor.lx3 neigh -ℤ shr a.lx3 me),
    )

-- Two ranges of cells at the finer level, `size` and `size_in` of them, of which the first has one
-- more cell on each side.
unfoldable pub touches : ℕ → ℕ → ℤ → ℤ → Bool
touches size size_in l l_in =
    let low = times l size -ℤ pos 1 in
    let hi = low +ℤ pos (size + 1) in
    let low_in = times l_in size_in in
    let hi_in = low_in +ℤ pos size_in -ℤ pos 1 in not (ltb_ℤ hi low_in || ltb_ℤ hi_in low)

unfoldable pub max_ℤ : ℤ → ℤ → ℤ
max_ℤ a b = if ltb_ℤ a b then b else a

pub data Error : Type 0 where
  different_trees : Error

unfoldable pub is_neighbor : LogicalLocation → LogicalLocation → Result Error Bool
is_neighbor a b =
    let top = max_ℤ b.level a.level in
    let size_in = 2 ^ pos_part (top -ℤ b.level) in
    let size = 2 ^ pos_part (top -ℤ a.level) in
    if eqb_ℤ a.tree b.tree
    then ok (
        touches size size_in a.lx1 b.lx1
        && touches size size_in a.lx2 b.lx2
        && touches size size_in a.lx3 b.lx3)
    else err different_trees

unfoldable pub touches_te : ℕ → ℕ → ℤ → ℤ → ℤ → Bool
touches_te size size_in l l_in te =
    let low0 = times l size in
    let hi0 = low0 +ℤ pos size -ℤ pos 1 in
    let low1 = low0 -ℤ pos 1 in
    let hi1 = hi0 +ℤ pos 1 in
    let low =
      if eqb_ℤ te (negsuc 0) then low1 else (if eqb_ℤ te (pos 1) then hi1 -ℤ pos 1 else low0) in
    let hi =
      if eqb_ℤ te (negsuc 0) then low1 +ℤ pos 1 else (if eqb_ℤ te (pos 1) then hi1 else hi0) in
    let low_in = times l_in size_in in
    let hi_in = low_in +ℤ pos size_in -ℤ pos 1 in not (ltb_ℤ hi low_in || ltb_ℤ hi_in low)

unfoldable pub is_neighbor_of_te : LogicalLocation → LogicalLocation → ℤ × ℤ × ℤ → Result Error Bool
is_neighbor_of_te a b (t1, t2, t3) =
    let top = max_ℤ b.level a.level in
    let size_in = 2 ^ pos_part (top -ℤ b.level) in
    let size = 2 ^ pos_part (top -ℤ a.level) in
    if eqb_ℤ a.tree b.tree
    then ok (
        touches_te size size_in a.lx1 b.lx1 t1
        && touches_te size size_in a.lx2 b.lx2 t2
        && touches_te size size_in a.lx3 b.lx3 t3)
    else err different_trees

unfoldable pub get_same_level_neighbor : LogicalLocation → ℤ → ℤ → ℤ → LogicalLocation
get_same_level_neighbor a o1 o2 o3 = record a {
  lx1 = a.lx1 +ℤ o1;
  lx2 = a.lx2 +ℤ o2;
  lx3 = a.lx3 +ℤ o3;
}

-- One index of the parent: `offset_l`, `norig` and `nparent` are `int`s.
unfoldable pub parent_index : ℕ → ℕ → ℕ → ℤ → ℤ
parent_index norig nparent nlevel l =
    let offset_l = wrap32 (l +ℤ wrap32 (pos (5 * norig))) in
    shr (rem offset_l norig) nlevel +ℤ times (quot offset_l norig -ℤ pos 5) nparent

unfoldable pub get_parent : ℕ → LogicalLocation → LogicalLocation
get_parent nlevel a =
    let norig = blocks a.level in
    let nparent = blocks (a.level -ℤ pos nlevel) in
    record {
      tree = a.tree;
      level = a.level -ℤ pos nlevel;
      lx1 = parent_index norig nparent nlevel a.lx1;
      lx2 = parent_index norig nparent nlevel a.lx2;
      lx3 = parent_index norig nparent nlevel a.lx3;
    }

unfoldable pub get_daughter : LogicalLocation → ℕ → ℕ → ℕ → LogicalLocation
get_daughter a o1 o2 o3 =
    if ltb_ℤ a.level (pos 0) then record a { level = a.level +ℤ pos 1 } else record a {
      level = a.level +ℤ pos 1;
      lx1 = shl a.lx1 1 +ℤ pos o1;
      lx2 = shl a.lx2 1 +ℤ pos o2;
      lx3 = shl a.lx3 1 +ℤ pos o3;
    }

abbrev pub active : Bool → List ℕ
active true = 0 ∷ 1 ∷ []
active false = 0 ∷ []

abbrev pub for_each {ℓ κ} : {A : Type ℓ} {B : Type κ} → List A → (A → List B) → List B
for_each [] f = []
for_each (x ∷ xs) f = f x ++ for_each xs f

unfoldable pub get_daughters : ℕ → LogicalLocation → List LogicalLocation
get_daughters ndim a =
    if ltb_ℤ a.level (pos 0)
    then get_daughter a 0 0 0 ∷ []
    else for_each (active true) (λ i.
      for_each (active (ltb 1 ndim))
        (λ j. for_each (active (ltb 2 ndim)) (λ k. get_daughter a i j k ∷ [])))

-- The parities of a finer neighbour in the directions in which it lies beside the block, in order, then
-- zeros.
unfoldable pub get_face_offsets : LogicalLocation → LogicalLocation → ℤ → ℤ → ℤ → List ℤ
get_face_offsets a neighbor o1 o2 o3 =
    let found =
      (if eqb_ℤ o1 (pos 0) then rem neighbor.lx1 2 ∷ [] else [])
      ++ ((if eqb_ℤ o2 (pos 0) then rem neighbor.lx2 2 ∷ [] else [])
          ++ (if eqb_ℤ o3 (pos 0) then rem neighbor.lx3 2 ∷ [] else [])) in
    let none_found = pos 0 ∷ pos 0 ∷ pos 0 ∷ [] in
    if eqb_ℤ neighbor.level (a.level +ℤ pos 1) then take 3 (found ++ none_found) else none_found
