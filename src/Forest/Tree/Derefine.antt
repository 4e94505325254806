-- ===== src/Forest/Tree/Derefine.antt =====
-- Derefine after Refine, src/mesh/forest/tree.cpp.
use parthenon.Base.{
  ℕ, not, ◌&&◌, ◌||◌, if◌then◌else◌, Bool, true, false, none, some, List, [], ◌∷◌, ltb, ◌≡◌, ◌≢◌,
  refl, arith, Bool-cases, inl, inr, ap, ◌∙◌, ◌-◌, ok, length, set, get_elem?, set-set,
  get_elem?-set_self, get_elem?-lt,
}
use parthenon.Base.Int.{
  ℤ, pos, negsuc, ◌≤ℤ◌, eqb_ℤ, ltb_ℤ, eq_of_parts, ◌+ℤ◌, +ℤ_parts, shl, wrap32, IsInt, wrap32-IsInt,
}
use parthenon.Location.Defs.{LogicalLocation, eqb, get_daughters, get_daughter}
use parthenon.Forest.LocMap.{
  Gids, LocMap, find, count, erase, insert, find-erase, find-insert, eqb-eq, eqb_refl,
}
use parthenon.Forest.Tree.{
  Tree, Forest, refine_with, refine_only, derefine, insert_all, split, extract_all, merge,
  all_leaves, int64_max, min_ℤ, gid_of, unset,
}

abbrev pub among : LogicalLocation → List LogicalLocation → Bool
among a [] = false
among a (d ∷ ds) = eqb a d || among a ds

pub find-insert_all :
    (a : LogicalLocation) (ds : List LogicalLocation) (g : Gids) (m : LocMap)
    → find a (insert_all ds g m) ≡ (if among a ds && not (count a m) then some g else find a m)
unfolding insert_all
find-insert_all a [] g m = refl
find-insert_all a (d ∷ ds) g m =
    ground (arith, find-insert_all a ds g (insert d g m), find-insert a d g m, eqb-eq a d)

find-extract_all :
    (a : LogicalLocation) (ds : List LogicalLocation) (m : LocMap) (gid : ℤ)
    → find a (extract_all ds m gid).0 ≡ (if among a ds then none else find a m)
unfolding extract_all
find-extract_all a [] m gid = refl
find-extract_all a (d ∷ ds) m gid =
    ground
      (arith, find-extract_all a ds (erase d m) (min_ℤ gid (gid_of (find d m))), find-erase a d m)

abbrev Distinct : List LogicalLocation → Type 0
Distinct [] = Unit
Distinct (d ∷ ds) = (among d ds ≡ false) × Distinct ds

module _ (l : ℤ) where
  apart : (eqb_ℤ (l +ℤ pos 0) (l +ℤ pos 1) ≡ false) × (eqb_ℤ (l +ℤ pos 1) (l +ℤ pos 0) ≡ false)
  apart = ground (arith, +ℤ_parts l (pos 0), +ℤ_parts l (pos 1))

-- The daughters of a block are different blocks.
get_daughters-Distinct : (ndim : ℕ) (a : LogicalLocation) → Distinct (get_daughters ndim a)
unfolding get_daughters get_daughter eqb
get_daughters-Distinct ndim a = elim (Bool-cases (ltb_ℤ a.level (pos 0))) [
  | inl e ↦ rw e (refl, tt)
  | inr e ↦ elim (Bool-cases (ltb 1 ndim)) [
    | inl y ↦ elim (Bool-cases (ltb 2 ndim)) [
      | inl z ↦
          rw (e, y, z, get_daughters)
            (ground (arith, apart (shl a.lx1 1), apart (shl a.lx2 1), apart (shl a.lx3 1)))
      | inr z ↦
          rw (e, y, z, get_daughters) (ground (arith, apart (shl a.lx1 1), apart (shl a.lx2 1)))
    ]
    | inr y ↦ elim (Bool-cases (ltb 2 ndim)) [
      | inl z ↦ absurd (ground arith)
      | inr z ↦ rw (e, y, z, get_daughters) (ground (arith, apart (shl a.lx1 1)))
    ]
  ]
]

min_ℤ-eq : (gid g : ℤ) → g ≤ℤ gid → min_ℤ gid g ≡ g
min_ℤ-eq gid g h = elim (Bool-cases (ltb_ℤ g gid)) [
  | inl e ↦ rw e
  | inr e ↦ rw e (eq_of_parts gid g (ground arith))
]

among_other :
    (x d : LogicalLocation) (ds : List LogicalLocation)
    → among x ds ≡ true
    → among d ds ≡ false
    → eqb x d ≡ false
among_other x d ds h k = ground (arith, eqb-eq x d)

extract_all-cons :
    (d : LogicalLocation) (ds : List LogicalLocation) (m : LocMap) (gid : ℤ)
    → extract_all (d ∷ ds) m gid ≡ extract_all ds (erase d m) (min_ℤ gid (gid_of (find d m)))
unfolding extract_all
extract_all-cons d ds m gid = refl

extract_all-gid_start :
    (ds : List LogicalLocation) (m : LocMap) (g : ℤ)
    → Distinct ds
    → ((d : LogicalLocation) → among d ds ≡ true → gid_of (find d m) ≡ g)
    → (extract_all ds m g).1 ≡ g
extract_all-gid_start [] m g u h = unfold extract_all in refl
extract_all-gid_start (d ∷ ds) m g u h =
    rw (extract_all-cons d ds m g, h d (ground (arith, eqb_refl d)), min_ℤ-eq g g (omega arith))
      (extract_all-gid_start ds (erase d m) g u.1
        (λ x k. rw (find-erase x d m, among_other x d ds k u.0) (h x (ground arith))))

-- The least gid, if every daughter has the same.
extract_all-gid :
    (ds : List LogicalLocation) (m : LocMap) (gid g : ℤ)
    → Distinct ds
    → ((d : LogicalLocation) → among d ds ≡ true → gid_of (find d m) ≡ g)
    → g ≤ℤ gid
    → ds ≢ []
    → (extract_all ds m gid).1 ≡ g
extract_all-gid [] m gid g u h b ne = absurd (ne refl)
extract_all-gid (d ∷ ds) m gid g u h b ne =
    rw (extract_all-cons d ds m gid, h d (ground (arith, eqb_refl d)), min_ℤ-eq gid g b)
      (extract_all-gid_start ds (erase d m) g u.1
        (λ x k. rw (find-erase x d m, among_other x d ds k u.0) (h x (ground arith))))

all_leaves-among :
    (ds : List LogicalLocation) (m : LocMap)
    → ((d : LogicalLocation) → among d ds ≡ true → count d m ≡ true)
    → all_leaves ds m ≡ true
unfolding all_leaves
all_leaves-among [] m h = refl
all_leaves-among (d ∷ ds) m h =
    let rest = all_leaves-among ds m (λ e k. h e (ground arith)) in ground (arith, h d, eqb_refl d)

get_daughters-ne : (ndim : ℕ) (a : LogicalLocation) → get_daughters ndim a ≢ []
unfolding get_daughters
get_daughters-ne ndim a h = ground arith

-- The changes that Refine and Derefine make to the tree itself.
merge-split :
    (a : LogicalLocation) (t : Tree) (g : Gids)
    → find a t.leaves ≡ some g
    → IsInt g.0
    → ((d : LogicalLocation) → among d (get_daughters t.ndim a) ≡ true → count d t.leaves ≡ false)
    → (all_leaves (get_daughters t.ndim a) (split a t).leaves ≡ true)
      × ((x : LogicalLocation)
          → find x (merge a (split a t)).leaves
            ≡ (if eqb x a then some (g.0, negsuc 0) else find x t.leaves))
      × ((x : LogicalLocation)
          → find x (merge a (split a t)).internal_nodes
            ≡ (if eqb x a then none else find x t.internal_nodes))
unfolding split merge
merge-split a t g h b fresh = (all_leaves-among ds i (λ d k. there d k), back, inner)
  where
    ds : List LogicalLocation
    ds = get_daughters t.ndim a

    gids : Gids
    gids = (wrap32 (gid_of (find a t.leaves)), negsuc 0)

    i : LocMap
    i = insert_all ds gids (erase a t.leaves)

    there : (d : LogicalLocation) → among d ds ≡ true → count d i ≡ true
    there d k = ground (arith, find-insert_all d ds gids (erase a t.leaves))

    gid : (extract_all ds i int64_max).1 ≡ g.0
    gid =
        extract_all-gid ds i int64_max g.0 (get_daughters-Distinct t.ndim a)
          (λ d k. ground (
            arith,
            find-insert_all d ds gids (erase a t.leaves),
            find-erase d a t.leaves,
            fresh d k,
            wrap32-IsInt g.0 b,
          ))
          (omega arith) (get_daughters-ne t.ndim a)

    back :
        (x : LogicalLocation)
        → find x (
            insert a
              (wrap32 (extract_all ds i int64_max).1, negsuc 0)
              (extract_all ds i int64_max).0)
          ≡ (if eqb x a then some (g.0, negsuc 0) else find x t.leaves)
    back x =
        rw (gid, wrap32-IsInt g.0 b)
          (ground (
            arith,
            find-insert x a (g.0, negsuc 0) (extract_all ds i int64_max).0,
            find-extract_all x ds i int64_max,
            find-extract_all a ds i int64_max,
            find-insert_all x ds gids (erase a t.leaves),
            find-insert_all a ds gids (erase a t.leaves),
            find-erase x a t.leaves,
            find-erase a a t.leaves,
            eqb_refl a,
            fresh x,
          ))

    inner :
        (x : LogicalLocation)
        → find x (erase a (insert a unset t.internal_nodes))
          ≡ (if eqb x a then none else find x t.internal_nodes)
    inner x = ground (
      arith,
      find-erase x a (insert a unset t.internal_nodes),
      find-insert x a unset t.internal_nodes,
    )

refine_only-split :
    (f : Forest) (i : ℕ) (a : LogicalLocation) (t : Tree) (g : Gids)
    → get_elem? f i ≡ some t
    → eqb_ℤ a.tree t.my_id ≡ true
    → find a t.leaves ≡ some g
    → refine_only f i a ≡ ok (set f i (split a t), length (get_daughters t.ndim a) - 1)
unfolding refine_only refine_with
refine_only-split f i a t g e same leaf =
    let counted : count a t.leaves ≡ true = ground arith in
    rw (refine_only, refine_with, e, same, counted) refl

derefine-merge :
    (f : Forest) (i : ℕ) (a : LogicalLocation) (t : Tree)
    → get_elem? f i ≡ some t
    → eqb_ℤ a.tree t.my_id ≡ true
    → all_leaves (get_daughters t.ndim a) t.leaves ≡ true
    → derefine false f i a ≡ ok (set f i (merge a t), length (get_daughters t.ndim a) - 1)
unfolding derefine
derefine-merge f i a t e same all = rw (derefine, e, same, all) refl

derefine-refined :
    (f : Forest) (i : ℕ) (a : LogicalLocation) (t : Tree)
    → get_elem? f i ≡ some t
    → eqb_ℤ a.tree t.my_id ≡ true
    → all_leaves (get_daughters t.ndim a) (split a t).leaves ≡ true
    → derefine false (set f i (split a t)) i a
      ≡ ok (set f i (merge a (split a t)), length (get_daughters t.ndim a) - 1)
unfolding split
derefine-refined f i a t e same all =
    derefine-merge (set f i (split a t)) i a (split a t)
      (get_elem?-set_self f i (split a t) (get_elem?-lt f i t e)) same all
    ∙ ap (λ ts. ok (ts, length (get_daughters t.ndim a) - 1))
        (set-set f i (split a t) (merge a (split a t)))

-- A leaf of a tree of the forest, on that tree, whose gid fits an int and none of whose daughters
-- is a leaf: Refine of it and then Derefine of it, both with enforce_proper_nesting off, succeed
-- and add and remove the same number of blocks; they leave the other trees as they were, and in its
-- tree the block is a leaf with its gid again and no internal node, and every other leaf and
-- internal node is as it was.
pub derefine-refine_only :
    (f : Forest) (i : ℕ) (a : LogicalLocation) (t : Tree) (g : Gids)
    → get_elem? f i ≡ some t
    → eqb_ℤ a.tree t.my_id ≡ true
    → find a t.leaves ≡ some g
    → IsInt g.0
    → ((d : LogicalLocation) → among d (get_daughters t.ndim a) ≡ true → count d t.leaves ≡ false)
    → (refined : Forest) × (back : Tree) × (n : ℕ) × (refine_only f i a ≡ ok (refined, n))
      × (derefine false refined i a ≡ ok (set f i back, n))
      × ((x : LogicalLocation)
          → find x back.leaves ≡ (if eqb x a then some (g.0, negsuc 0) else find x t.leaves))
      × ((x : LogicalLocation)
          → find x back.internal_nodes ≡ (if eqb x a then none else find x t.internal_nodes))
derefine-refine_only f i a t g e same leaf fits fresh =
    let (all, leaves, inner) = merge-split a t g leaf fits fresh in
    (
      set f i (split a t),
      merge a (split a t),
      length (get_daughters t.ndim a) - 1,
      refine_only-split f i a t g e same leaf,
      derefine-refined f i a t e same all,
      leaves,
      inner,
    )
