-- ===== src/Forest/Tree.antt =====
-- Tree of src/mesh/forest/tree.hpp and .cpp. A forest is the list of its trees; a pointer to a tree is
-- its position. Neighbouring trees change one another in Refine, so that it works on the forest.
pub mod Gid
pub mod Derefine
pub mod Fuel
use parthenon.Base.{
  ℕ, zero, suc, ◌+◌, ◌-◌, ltb, not, ◌&&◌, ◌||◌, if◌then◌else◌, Bool, true, false, Option, none,
  some, List, [], ◌∷◌, ◌++◌, map, length, get_elem?, set, Result, ok, err, ◌>>=◌, guard, ◌>>◌, ◌≡◌,
  refl,
}
use parthenon.Base.Int.{
  ℤ, pos, negsuc, pos_part, neg_part, ◌+ℤ◌, ◌-ℤ◌, eqb_ℤ, leb_ℤ, ltb_ℤ, shl, sub_ℕ, wrap32,
}
use Prim.Native.Nat.{◌^◌}
use parthenon.Location.Defs.{
  LogicalLocation, get_daughter, get_daughters, get_parent, get_same_level_neighbor,
  neighbor_tree_index, for_each, active, blocks, is_in_tree,
}
use parthenon.Forest.LocMap.{Gids, LocMap, find, count, erase, insert, assign}
use parthenon.Forest.Transformation.{LogicalCoordinateTransformation, transform}

-- A neighbouring tree, and the coordinates in which it sees this one.
abbrev pub Link : Type 0
Link = ℕ × LogicalCoordinateTransformation

-- `neighbors` has the links at each of the 27 positions.
pub record Tree : Type 0 where
  pub my_id : ℤ
  pub ndim : ℕ
  pub leaves : LocMap
  pub internal_nodes : LocMap
  pub neighbors : ℕ → List Link

abbrev pub Forest : Type 0
Forest = List Tree

pub data Error : Type 0 where
  wrong_tree no_tree no_block bad_logic out_of_fuel : Error

abbrev pub unset : Gids
unset = (negsuc 0, negsuc 0)

unfoldable pub insert_all : List LogicalLocation → Gids → LocMap → LocMap
insert_all [] g m = m
insert_all (d ∷ ds) g m = insert_all ds g (insert d g m)

abbrev pub gid_of : Option Gids → ℤ
gid_of none = negsuc 0
gid_of (some g) = g.0

-- LocMapEntry takes the gid as an `int`.
-- The block becomes internal, and its daughters are leaves that remember its gid.
unfoldable pub split : LogicalLocation → Tree → Tree
split a t = record t {
  leaves =
      insert_all (get_daughters t.ndim a) (wrap32 (gid_of (find a t.leaves)), negsuc 0)
        (erase a t.leaves);
  internal_nodes = insert a unset t.internal_nodes;
}

-- The location `neigh` as each of the linked trees sees it.
unfoldable pub link_targets :
    Forest → Tree → LogicalLocation → List Link → List (ℕ × LogicalLocation)
link_targets f t neigh links = for_each links (λ link. elim (get_elem? f link.0) [
  | none ↦ []
  | some n ↦ (link.0, transform link.1 neigh n.my_id) ∷ []
])

-- The blocks that proper nesting wants refined first, as positions of trees and locations in them.
unfoldable pub nesting_targets : Forest → Tree → LogicalLocation → List (ℕ × LogicalLocation)
nesting_targets f t a =
    let parent = get_parent 1 a in
    let o1 = a.lx1 -ℤ shl parent.lx1 1 in
    let o2 = a.lx2 -ℤ shl parent.lx2 1 in
    let o3 = a.lx3 -ℤ shl parent.lx3 1 in
    let y = if ltb 1 t.ndim then pos 1 else pos 0 in
    let z = if ltb 2 t.ndim then pos 1 else pos 0 in
    for_each (active (ltb 2 t.ndim)) (λ k. for_each (active (ltb 1 t.ndim)) (λ j.
      for_each (active (ltb 0 t.ndim)) (λ i.
        let neigh =
          get_same_level_neighbor parent (pos i +ℤ o1 -ℤ pos 1) (pos j +ℤ o2 -ℤ y)
            (pos k +ℤ o3 -ℤ z) in
        link_targets f t neigh (t.neighbors (neighbor_tree_index neigh)))))

abbrev pub Refined : Type 0
Refined = Result Error (Forest × ℕ)

-- The loops over the neighbouring trees; `rec` is Refine.
unfoldable pub visit :
    (Forest → ℕ → LogicalLocation → Refined) → List (ℕ × LogicalLocation) → Forest → ℕ → Refined
visit rec [] f nadded = ok (f, nadded)
visit rec ((i, a) ∷ rest) f nadded = rec f i a >>= λ r. visit rec rest r.0 (nadded + r.1)

-- `rest` is what follows the refinement of the block itself.
unfoldable pub refine_with :
    (Forest → ℕ → LogicalLocation → Refined) → Bool → Forest → ℕ → LogicalLocation → Refined
refine_with rec nesting f i a = elim (get_elem? f i) [
  | none ↦ err no_tree
  | some t ↦
      if not (eqb_ℤ a.tree t.my_id)
      then err wrong_tree
      else (if not (count a t.leaves)
          then ok (f, 0)
          else (let f' = set f i (split a t) in
              let nadded = length (get_daughters t.ndim a) - 1 in
              if nesting then visit rec (nesting_targets f t a) f' nadded else ok (f', nadded)))
]

-- Refine, with fuel for the depth of the calls.
unfoldable pub refine : ℕ → Forest → ℕ → LogicalLocation → Refined
refine zero f i a = err out_of_fuel
refine (suc n) f i a = refine_with (refine n) true f i a

-- Refine with enforce_proper_nesting off makes no further call.
unfoldable pub refine_only : Forest → ℕ → LogicalLocation → Refined
refine_only f i a = refine_with (λ f' i' a'. err out_of_fuel) false f i a

-- The block at `a` is as deep as its level, so that many calls are nested.
abbrev pub depth_of : LogicalLocation → ℕ
depth_of a = pos_part a.level + 2

-- Whether every one of the daughters is a leaf.
unfoldable pub all_leaves : List LogicalLocation → LocMap → Bool
all_leaves [] m = true
all_leaves (d ∷ ds) m = count d m && all_leaves ds m

unfoldable pub any_internal : Forest → List Link → LogicalLocation → Bool
any_internal f [] neigh = false
any_internal f ((i, trans) ∷ links) neigh =
    (elim (get_elem? f i) [
      | none ↦ false
      | some n ↦ count (transform trans neigh n.my_id) n.internal_nodes
    ])
    || any_internal f links neigh

abbrev pub around : Bool → List ℤ
around true = negsuc 0 ∷ pos 0 ∷ pos 1 ∷ []
around false = pos 0 ∷ []

abbrev pub any_of {ℓ} : {A : Type ℓ} → List A → (A → Bool) → Bool
any_of [] p = false
any_of (x ∷ xs) p = p x || any_of xs p

-- A daughter beside a block that is finer than it: removing it would break proper nesting.
unfoldable pub beside_finer : Forest → Tree → LogicalLocation → Bool
beside_finer f t d = any_of (around (ltb 2 t.ndim)) (λ k. any_of (around (ltb 1 t.ndim)) (λ j.
    any_of (around (ltb 0 t.ndim)) (λ i.
      let neigh = get_same_level_neighbor d i j k in
      any_internal f (t.neighbors (neighbor_tree_index neigh)) neigh)))

abbrev pub min_ℤ : ℤ → ℤ → ℤ
min_ℤ a b = if ltb_ℤ b a then b else a

abbrev pub int64_max : ℤ
int64_max = pos (2 ^ 63 - 1)

-- The loop that extracts the daughters and keeps the least of their gids.
unfoldable pub extract_all : List LogicalLocation → LocMap → ℤ → LocMap × ℤ
extract_all [] m gid = (m, gid)
extract_all (d ∷ ds) m gid = extract_all ds (erase d m) (min_ℤ gid (gid_of (find d m)))

unfoldable pub merge : LogicalLocation → Tree → Tree
merge a t =
    let r = extract_all (get_daughters t.ndim a) t.leaves int64_max in
    record t {
      leaves = insert a (wrap32 r.1, negsuc 0) r.0;
      internal_nodes = erase a t.internal_nodes;
    }

unfoldable pub derefine : Bool → Forest → ℕ → LogicalLocation → Refined
derefine nesting f i a = elim (get_elem? f i) [
  | none ↦ err no_tree
  | some t ↦
      let ds = get_daughters t.ndim a in
      if not (eqb_ℤ a.tree t.my_id)
      then err wrong_tree
      else (if not (all_leaves ds t.leaves) || (nesting && any_of ds (beside_finer f t))
          then ok (f, 0)
          else ok (set f i (merge a t), length ds - 1))
]

-- GetGid and GetOldGid look among the leaves, then among the internal nodes.
unfoldable pub entry : LogicalLocation → Tree → Option Gids
entry a t = elim (find a t.leaves) [ some g ↦ some g | none ↦ find a t.internal_nodes ]

abbrev pub first_gid : Option Gids → ℤ
first_gid none = negsuc 0
first_gid (some g) = g.0

abbrev pub second_gid : Option Gids → ℤ
second_gid none = negsuc 0
second_gid (some g) = g.1

unfoldable pub get_gid : LogicalLocation → Tree → ℤ
get_gid a t = first_gid (entry a t)

unfoldable pub get_old_gid : LogicalLocation → Tree → ℤ
get_old_gid a t = second_gid (entry a t)

unfoldable pub insert_gid : LogicalLocation → ℤ → Tree → Result Error Tree
insert_gid a gid t = elim (find a t.leaves) [
  | some g ↦ ok (record t { leaves = assign a (gid, g.0) t.leaves })
  | none ↦ elim (find a t.internal_nodes) [
    | some g ↦ ok (record t { internal_nodes = assign a (gid, g.0) t.internal_nodes })
    | none ↦ err no_block
  ]
]

-- GetLeafGid goes down the first daughters; the fuel bounds the depth of the tree.
unfoldable pub get_leaf_gid : ℕ → LogicalLocation → Tree → ℤ
get_leaf_gid zero a t = negsuc 0
get_leaf_gid (suc n) a t = elim (find a t.leaves) [
  | some g ↦ g.0
  | none ↦ elim (find a t.internal_nodes) [
    | some g ↦ get_leaf_gid n (get_daughter a 0 0 0) t
    | none ↦ negsuc 0
  ]
]
