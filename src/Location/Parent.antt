-- ===== src/Location/Parent.antt =====
-- GetParent, GetDaughter and the containment tests of src/mesh/forest/logical_location.cpp.
use native.Mathlib.Nat.{div-add-mod, pow-succ', one-le-pow, pow-le-pow_right}
use parthenon.Base.{ℕ, zero, suc, ◌+◌, ◌-◌, ◌*◌, ◌/◌, ◌%◌, ◌^◌, ◌≤◌, ◌<◌, ◌≡◌, arith, ◌≢◌, ◌∙◌}
use parthenon.Base.Int.{
  ℤ, pos, negsuc, pos_part, neg_part, ◌+ℤ◌, ◌-ℤ◌, shl, shr, times, wrap32, wrap32-id, eq_of_parts,
  +ℤ_parts, -ℤ_parts,
}
use parthenon.Location.Defs.{LogicalLocation, parent_index, get_parent, get_daughter}

minus_parts :
    (q m : ℕ)
    → pos_part (times (pos q -ℤ pos 5) m) + 5 * m ≡ neg_part (times (pos q -ℤ pos 5) m) + q * m
unfolding ◌-ℤ◌
minus_parts zero m = ground arith
minus_parts (suc zero) m = ground arith
minus_parts (suc (suc zero)) m = ground arith
minus_parts (suc (suc (suc zero))) m = ground arith
minus_parts (suc (suc (suc (suc zero)))) m = ground arith
minus_parts (suc (suc (suc (suc (suc j))))) m = ground arith

offset_index :
    (m : ℕ) (l : ℤ)
    → m ≤ 2 ^ 26
    → neg_part l ≤ 10 * m
    → pos_part l < 12 * m
    → (a : ℕ) × (wrap32 (l +ℤ wrap32 (pos (5 * (2 * m)))) ≡ pos a)
      × (a + neg_part l ≡ pos_part l + 10 * m)
offset_index m l hb lo hi =
    let a = pos_part l + 10 * m - neg_part l in
    let e : l +ℤ pos (5 * (2 * m)) ≡ pos a =
      eq_of_parts _ _ (omega (arith, +ℤ_parts l (pos (5 * (2 * m))))) in
    (a, rw (wrap32-id (5 * (2 * m)) (omega arith), e, wrap32-id a (omega arith)), omega arith)

halves :
    (m a : ℕ)
    → let x = pos (a % (2 * m) / 2) +ℤ times (pos (a / (2 * m)) -ℤ pos 5) m in
      pos_part x + 5 * m ≡ neg_part x + a / 2
halves m a = omega (
  arith,
  +ℤ_parts (pos (a % (2 * m) / 2)) (times (pos (a / (2 * m)) -ℤ pos 5) m),
  minus_parts (a / (2 * m)) m,
  div-add-mod a (2 * m),
)

-- The source's comment: for most cases the index of the parent is `l >> nlevel`. Here for one level.
parent_index-shr :
    (m : ℕ) (l : ℤ)
    → 0 < m
    → m ≤ 2 ^ 26
    → neg_part l ≤ 10 * m
    → pos_part l < 12 * m
    → parent_index (2 * m) m 1 l ≡ shr l 1
unfolding parent_index
parent_index-shr m (pos n) hm hb lo hi =
    let (a, e, f) = offset_index m (pos n) hb lo hi in
    rw (parent_index, e) (eq_of_parts _ _ (omega (arith, halves m a, f)))
parent_index-shr m (negsuc n) hm hb lo hi =
    let (a, e, f) = offset_index m (negsuc n) hb lo hi in
    rw (parent_index, e) (eq_of_parts _ _ (omega (arith, halves m a, f)))

-- A location at level `depth`, inside the tree or within five trees of it.
pub record IsWithin (depth : ℕ) (a : LogicalLocation) : Type 0 where
  pub at_depth : a.level ≡ pos depth
  pub low1 : neg_part a.lx1 ≤ 5 * 2 ^ depth
  pub low2 : neg_part a.lx2 ≤ 5 * 2 ^ depth
  pub low3 : neg_part a.lx3 ≤ 5 * 2 ^ depth
  pub up1 : pos_part a.lx1 < 6 * 2 ^ depth
  pub up2 : pos_part a.lx2 < 6 * 2 ^ depth
  pub up3 : pos_part a.lx3 < 6 * 2 ^ depth

shl_bounds :
    (l : ℤ) (o m : ℕ)
    → o ≤ 1
    → neg_part l ≤ 5 * m
    → pos_part l < 6 * m
    → (neg_part (shl l 1 +ℤ pos o) ≤ 10 * m) × (pos_part (shl l 1 +ℤ pos o) < 12 * m)
unfolding ◌+ℤ◌
shl_bounds (pos n) o m ho lo hi = ground arith
shl_bounds (negsuc n) o m ho lo hi = ground arith

shr-shl : (l : ℤ) (o : ℕ) → o ≤ 1 → shr (shl l 1 +ℤ pos o) 1 ≡ l
unfolding ◌+ℤ◌
shr-shl (pos n) o ho = ground arith
shr-shl (negsuc n) o ho = ground arith

parent_index-daughter :
    (m : ℕ) (l : ℤ) (o : ℕ)
    → 0 < m
    → m ≤ 2 ^ 26
    → o ≤ 1
    → neg_part l ≤ 5 * m
    → pos_part l < 6 * m
    → parent_index (2 * m) m 1 (shl l 1 +ℤ pos o) ≡ l
parent_index-daughter m l o hm hb ho lo hi =
    let b = shl_bounds l o m ho lo hi in
    parent_index-shr m (shl l 1 +ℤ pos o) hm hb b.0 b.1 ∙ shr-shl l o ho

abbrev at : ℤ → ℕ → ℤ → ℤ → ℤ → LogicalLocation
at t depth l1 l2 l3 = record { tree = t; level = pos depth; lx1 = l1; lx2 = l2; lx3 = l3 }

get_daughter-at :
    (depth : ℕ) (a : LogicalLocation) (o1 o2 o3 : ℕ)
    → a.level ≡ pos depth
    → get_daughter a o1 o2 o3
      ≡ at a.tree
          (suc depth)
          (shl a.lx1 1 +ℤ pos o1)
          (shl a.lx2 1 +ℤ pos o2)
          (shl a.lx3 1 +ℤ pos o3)
unfolding get_daughter
get_daughter-at depth a o1 o2 o3 e =
    let next : a.level +ℤ pos 1 ≡ pos (suc depth) =
      eq_of_parts _ _ (rw e (omega (arith, +ℤ_parts (pos depth) (pos 1)))) in
    ground arith

get_parent-at :
    (t : ℤ) (depth : ℕ) (l1 l2 l3 : ℤ)
    → get_parent 1 (at t (suc depth) l1 l2 l3)
      ≡ at t depth
          (parent_index (2 * 2 ^ depth) (2 ^ depth) 1 l1)
          (parent_index (2 * 2 ^ depth) (2 ^ depth) 1 l2)
          (parent_index (2 * 2 ^ depth) (2 ^ depth) 1 l3)
unfolding get_parent
get_parent-at t depth l1 l2 l3 =
    let back : pos (suc depth) -ℤ pos 1 ≡ pos depth =
      eq_of_parts _ _ (omega (arith, -ℤ_parts (pos (suc depth)) (pos 1))) in
    rw (back, pow-succ' 2 depth)

-- The parent of a daughter is the location itself, for a location inside its tree or within five
-- trees of it, to level 26.
pub get_parent-get_daughter :
    (depth : ℕ) (a : LogicalLocation) (o1 o2 o3 : ℕ)
    → depth ≤ 26
    → IsWithin depth a
    → o1 ≤ 1
    → o2 ≤ 1
    → o3 ≤ 1
    → get_parent 1 (get_daughter a o1 o2 o3) ≡ a
get_parent-get_daughter depth a o1 o2 o3 hd w h1 h2 h3 =
    let m = 2 ^ depth in
    let hm : 0 < m = one-le-pow depth 2 (omega arith) in
    let hb : m ≤ 2 ^ 26 = pow-le-pow_right {n = 2} (omega arith) hd in
    rw
      (
        get_daughter-at depth a o1 o2 o3 w.at_depth,
        get_parent-at,
        parent_index-daughter m a.lx1 o1 hm hb h1 w.low1 w.up1,
        parent_index-daughter m a.lx2 o2 hm hb h2 w.low2 w.up2,
        parent_index-daughter m a.lx3 o3 hm hb h3 w.low3 w.up3,
      )
      (ground arith)

-- At level 29, where nmax_tree_offset * norig does not fit an int, the parent index is wrong for
-- every index inside the tree.
parent_index-overflow :
    (l : ℕ) → l < 2 ^ 29 → parent_index (2 ^ 29) (2 ^ 28) 1 (pos l) ≢ shr (pos l) 1
unfolding parent_index wrap32 ◌+ℤ◌ ◌-ℤ◌
parent_index-overflow l h e = ground arith
