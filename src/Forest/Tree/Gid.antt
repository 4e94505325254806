-- ===== src/Forest/Tree/Gid.antt =====
-- The gids of src/mesh/forest/tree.cpp.
use parthenon.Base.{false, none, ok, err, ◌≡◌, ◌⊎◌, inl, inr, arith, Option-cases}
use parthenon.Base.Int.{ℤ}
use parthenon.Location.Defs.{LogicalLocation, eqb}
use parthenon.Forest.LocMap.{find, assign, find-assign, eqb_refl}
use parthenon.Forest.Tree.{Tree, no_block, entry, get_gid, get_old_gid, insert_gid}

-- A block of the tree that is given a gid has it, and its former gid is the old one; the gids of
-- the other blocks stay. A location that is no block of the tree is refused.
insert_gid_cases :
    (a : LogicalLocation) (gid : ℤ) (t : Tree)
    → ((entry a t ≡ none) × (insert_gid a gid t ≡ err no_block))
      ⊎ ((u : Tree) × (insert_gid a gid t ≡ ok u)
          × (get_gid a u ≡ gid)
          × (get_old_gid a u ≡ get_gid a t)
          × ((b : LogicalLocation) → eqb b a ≡ false → entry b u ≡ entry b t))
unfolding insert_gid get_gid get_old_gid entry
insert_gid_cases a gid t = elim (Option-cases (find a t.leaves)) [
  | inr (g, e) ↦ inr (
    record t { leaves = assign a (gid, g.0) t.leaves },
    ground arith,
    ground (arith, find-assign a a (gid, g.0) t.leaves, eqb_refl a),
    ground (arith, find-assign a a (gid, g.0) t.leaves, eqb_refl a),
    (λ b h. ground (arith, find-assign b a (gid, g.0) t.leaves)),
  )
  | inl e ↦ elim (Option-cases (find a t.internal_nodes)) [
    | inr (g, i) ↦ inr (
      record t { internal_nodes = assign a (gid, g.0) t.internal_nodes },
      ground arith,
      ground (arith, find-assign a a (gid, g.0) t.internal_nodes, eqb_refl a),
      ground (arith, find-assign a a (gid, g.0) t.internal_nodes, eqb_refl a),
      (λ b h. ground (arith, find-assign b a (gid, g.0) t.internal_nodes)),
    )
    | inl i ↦ inl (ground arith, ground arith)
  ]
]
