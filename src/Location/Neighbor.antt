-- ===== src/Location/Neighbor.antt =====
-- IsNeighbor, Contains and IsContainedIn of src/mesh/forest/logical_location.cpp.
use parthenon.Base.{ℕ, ◌+◌, ◌^◌, ◌&&◌, Bool, true, ◌≡◌, refl, arith, ok, Bool-cases, inl, inr}
use parthenon.Base.Int.{
  ℤ, pos, pos_part, ◌+ℤ◌, ◌-ℤ◌, ◌≤ℤ◌, times, ltb_ℤ, leb_ℤ, eqb_ℤ, eq_of_parts, +ℤ_parts, -ℤ_parts,
}
use parthenon.Location.Defs.{
  LogicalLocation, touches, is_neighbor, max_ℤ, is_contained_in, contains,
}

-- The ranges that begin at p and q, of s and t cells.
abbrev Beside : ℕ → ℕ → ℤ → ℤ → Type 0
Beside s t p q = (q ≤ℤ p +ℤ pos s) × (p ≤ℤ q +ℤ pos t)

abbrev beside : ℕ → ℕ → ℤ → ℤ → Bool
beside s t p q = leb_ℤ q (p +ℤ pos s) && leb_ℤ p (q +ℤ pos t)

-- The two tests of the source say that neither range ends before the other begins.
touches-beside : (s t : ℕ) (l k : ℤ) → touches s t l k ≡ beside s t (times l s) (times k t)
unfolding touches
touches-beside s t l k =
    let p = times l s in
    let q = times k t in
    ground (
      arith,
      -ℤ_parts p (pos 1),
      +ℤ_parts (p -ℤ pos 1) (pos (s + 1)),
      +ℤ_parts q (pos t),
      -ℤ_parts (q +ℤ pos t) (pos 1),
      +ℤ_parts p (pos s),
    )

beside_comm : (s t : ℕ) (p q : ℤ) → beside s t p q ≡ beside t s q p
beside_comm s t p q = ground arith

touches_comm : (s t : ℕ) (l k : ℤ) → touches s t l k ≡ touches t s k l
touches_comm s t l k =
    rw (touches-beside s t l k, touches-beside t s k l) (beside_comm s t (times l s) (times k t))

touches_self : (s : ℕ) (l : ℤ) → touches s s l l ≡ true
touches_self s l = rw (touches-beside s s l l) (ground (arith, +ℤ_parts (times l s) (pos s)))

eqb_ℤ_comm : (a b : ℤ) → eqb_ℤ a b ≡ eqb_ℤ b a
eqb_ℤ_comm a b = ground arith

eqb_ℤ_refl : (a : ℤ) → eqb_ℤ a a ≡ true
eqb_ℤ_refl a = ground arith

max_ℤ_comm : (a b : ℤ) → max_ℤ a b ≡ max_ℤ b a
unfolding max_ℤ
max_ℤ_comm a b = elim (Bool-cases (ltb_ℤ a b)) [
  | inl e ↦ ground arith
  | inr e ↦ elim (Bool-cases (ltb_ℤ b a)) [
    | inl f ↦ ground arith
    | inr f ↦ rw (e, f, max_ℤ) (eq_of_parts a b (ground arith))
  ]
]

-- Whether two locations are neighbours does not depend on which is asked, at any two levels at
-- which the sizes of the blocks fit an int; of different trees, neither may be asked.
is_neighbor_comm : (a b : LogicalLocation) → is_neighbor a b ≡ is_neighbor b a
unfolding is_neighbor
is_neighbor_comm a b =
    let top = max_ℤ a.level b.level in
    let s = 2 ^ pos_part (top -ℤ a.level) in
    let t = 2 ^ pos_part (top -ℤ b.level) in
    rw (
      eqb_ℤ_comm a.tree b.tree,
      max_ℤ_comm b.level a.level,
      touches_comm s t a.lx1 b.lx1,
      touches_comm s t a.lx2 b.lx2,
      touches_comm s t a.lx3 b.lx3,
    )

-- Every location is its own neighbour.
is_neighbor_refl : (a : LogicalLocation) → is_neighbor a a ≡ ok true
unfolding is_neighbor
is_neighbor_refl a =
    let s = 2 ^ pos_part (max_ℤ a.level a.level -ℤ a.level) in
    rw (eqb_ℤ_refl a.tree, touches_self s a.lx1, touches_self s a.lx2, touches_self s a.lx3)

-- Contains and IsContainedIn are one relation, read from its two ends.
pub contains-is_contained_in : (a b : LogicalLocation) → contains a b ≡ is_contained_in b a
unfolding contains is_contained_in
contains-is_contained_in a b = refl
