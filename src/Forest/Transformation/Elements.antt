-- ===== src/Forest/Transformation/Elements.antt =====
-- The transformations of cell indices and of topological elements, and the composition of two
-- transformations: src/mesh/forest/logical_coordinate_transformation.hpp and .cpp.
use parthenon.Base.{ℕ, ◌&&◌, not, if◌then◌else◌, Bool, true, false, ◌≡◌, refl, arith, subst}
use parthenon.Base.Int.{ℤ, pos, ◌+ℤ◌, ◌-ℤ◌, int_laws}
use parthenon.Forest.Transformation.{
  Triple, at, put, LogicalCoordinateTransformation, Axes, axes, x123, x132, x213, x231, x312, x321,
}

abbrev eqb_Bool : Bool → Bool → Bool
eqb_Bool true b = b
eqb_Bool false b = not b

abbrev mirror : Bool → ℤ → ℤ → ℤ
mirror flipped ncell i = if flipped then ncell -ℤ pos 1 -ℤ i else i

-- Transform of the index of a cell, for blocks of `ncell` cells in each direction. The entries that no
-- direction is connected to are unset in the source.
unfoldable pub transform_ijk : ℤ → LogicalCoordinateTransformation → Triple ℤ → Triple ℤ
transform_ijk ncell t ijk =
    let one = put (at t.dir_connection 0) (mirror (at t.dir_flip 0) ncell (at ijk 0)) ijk in
    let two = put (at t.dir_connection 1) (mirror (at t.dir_flip 1) ncell (at ijk 1)) one in
    put (at t.dir_connection 2) (mirror (at t.dir_flip 2) ncell (at ijk 2)) two

unfoldable pub inverse_transform_ijk : ℤ → LogicalCoordinateTransformation → Triple ℤ → Triple ℤ
inverse_transform_ijk ncell t ijk = record {
  x1 = mirror (at t.dir_flip 0) ncell (at ijk (at t.dir_connection 0));
  x2 = mirror (at t.dir_flip 1) ncell (at ijk (at t.dir_connection 1));
  x3 = mirror (at t.dir_flip 2) ncell (at ijk (at t.dir_connection 2));
}

-- Transform of the offsets of a cell's centre.
unfoldable pub transform_offsets : LogicalCoordinateTransformation → Triple ℤ → Triple ℤ
transform_offsets t u =
    let turn = λ (flipped : Bool) (x : ℤ). if flipped then pos 0 -ℤ x else x in
    let one = put (at t.dir_connection 0) (turn (at t.dir_flip 0) (at u 0)) u in
    let two = put (at t.dir_connection 1) (turn (at t.dir_flip 1) (at u 1)) one in
    put (at t.dir_connection 2) (turn (at t.dir_flip 2) (at u 2)) two

-- ComposeTransformations
unfoldable pub compose :
    LogicalCoordinateTransformation
    → LogicalCoordinateTransformation
    → LogicalCoordinateTransformation
compose first second =
    let connection = λ (dir : ℕ). at second.dir_connection (at first.dir_connection dir) in
    let flips = λ (dir : ℕ).
      not (eqb_Bool (at second.dir_flip (at first.dir_connection dir)) (at first.dir_flip dir)) in
    let offset = λ (dir : ℕ).
      (let o = at second.offset (at first.dir_connection dir) in
        (if at first.dir_flip dir then pos 0 -ℤ o else o) +ℤ at first.offset dir) in
    record {
      use_offset = first.use_offset && second.use_offset;
      offset = record { x1 = offset 0; x2 = offset 1; x3 = offset 2 };
      dir_connection = record { x1 = connection 0; x2 = connection 1; x3 = connection 2 };
      dir_flip = record { x1 = flips 0; x2 = flips 1; x3 = flips 2 };
    }

mirror_twice : (flipped : Bool) (ncell i : ℤ) → mirror flipped ncell (mirror flipped ncell i) ≡ i
mirror_twice true ncell i = omega int_laws
mirror_twice false ncell i = refl

module _ (ncell : ℤ) (o : Triple ℤ) (f : Triple Bool) (u : Bool) (ijk : Triple ℤ) where
  abbrev along : Axes → LogicalCoordinateTransformation
  along p = record { use_offset = u; offset = o; dir_connection = axes p; dir_flip = f }

  along-inverse :
      (p : Axes) → inverse_transform_ijk ncell (along p) (transform_ijk ncell (along p) ijk) ≡ ijk
  unfolding inverse_transform_ijk transform_ijk
  along-inverse x123 = rw (
    mirror_twice f.x1 ncell ijk.x1,
    mirror_twice f.x2 ncell ijk.x2,
    mirror_twice f.x3 ncell ijk.x3,
  )
  along-inverse _ = rw (
    mirror_twice f.x1 ncell ijk.x1,
    mirror_twice f.x2 ncell ijk.x2,
    mirror_twice f.x3 ncell ijk.x3,
  )

-- With permuted directions, the inverse transformation of cell indices undoes the transformation,
-- for every number of cells.
pub inverse_transform_ijk-transform_ijk :
    (ncell : ℤ) (t : LogicalCoordinateTransformation) (p : Axes) (ijk : Triple ℤ)
    → t.dir_connection ≡ axes p
    → inverse_transform_ijk ncell t (transform_ijk ncell t ijk) ≡ ijk
inverse_transform_ijk-transform_ijk ncell t p ijk e =
    let same : along ncell t.offset t.dir_flip t.use_offset ijk p ≡ t = ground arith in
    subst (λ s. inverse_transform_ijk ncell s (transform_ijk ncell s ijk) ≡ ijk) same
      (along-inverse ncell t.offset t.dir_flip t.use_offset ijk p)

turn_twice :
    (a b : Bool) (x : ℤ)
    → (if not (eqb_Bool b a) then pos 0 -ℤ x else x)
      ≡ (if b then pos 0 -ℤ (if a then pos 0 -ℤ x else x) else (if a then pos 0 -ℤ x else x))
turn_twice true true x = omega int_laws
turn_twice true false x = refl
turn_twice false true x = refl
turn_twice false false x = refl

module _ (o o' : Triple ℤ) (f f' : Triple Bool) (b b' : Bool) (u : Triple ℤ) where
  abbrev first : Axes → LogicalCoordinateTransformation
  first p = record { use_offset = b; offset = o; dir_connection = axes p; dir_flip = f }

  abbrev second : Axes → LogicalCoordinateTransformation
  second q = record { use_offset = b'; offset = o'; dir_connection = axes q; dir_flip = f' }

  composed :
      (p q : Axes)
      → transform_offsets (compose (first p) (second q)) u
        ≡ transform_offsets (second q) (transform_offsets (first p) u)
  unfolding transform_offsets compose
  composed x123 x123 =
      rw (turn_twice f.x1 f'.x1 u.x1, turn_twice f.x2 f'.x2 u.x2, turn_twice f.x3 f'.x3 u.x3)
  composed x123 _ =
      rw (turn_twice f.x1 f'.x1 u.x1, turn_twice f.x2 f'.x2 u.x2, turn_twice f.x3 f'.x3 u.x3)
  composed x132 x123 =
      rw (turn_twice f.x1 f'.x1 u.x1, turn_twice f.x2 f'.x3 u.x2, turn_twice f.x3 f'.x2 u.x3)
  composed x132 _ =
      rw (turn_twice f.x1 f'.x1 u.x1, turn_twice f.x2 f'.x3 u.x2, turn_twice f.x3 f'.x2 u.x3)
  composed x213 x123 =
      rw (turn_twice f.x1 f'.x2 u.x1, turn_twice f.x2 f'.x1 u.x2, turn_twice f.x3 f'.x3 u.x3)
  composed x213 _ =
      rw (turn_twice f.x1 f'.x2 u.x1, turn_twice f.x2 f'.x1 u.x2, turn_twice f.x3 f'.x3 u.x3)
  composed x231 x123 =
      rw (turn_twice f.x1 f'.x2 u.x1, turn_twice f.x2 f'.x3 u.x2, turn_twice f.x3 f'.x1 u.x3)
  composed x231 _ =
      rw (turn_twice f.x1 f'.x2 u.x1, turn_twice f.x2 f'.x3 u.x2, turn_twice f.x3 f'.x1 u.x3)
  composed x312 x123 =
      rw (turn_twice f.x1 f'.x3 u.x1, turn_twice f.x2 f'.x1 u.x2, turn_twice f.x3 f'.x2 u.x3)
  composed x312 _ =
      rw (turn_twice f.x1 f'.x3 u.x1, turn_twice f.x2 f'.x1 u.x2, turn_twice f.x3 f'.x2 u.x3)
  composed x321 x123 =
      rw (turn_twice f.x1 f'.x3 u.x1, turn_twice f.x2 f'.x2 u.x2, turn_twice f.x3 f'.x1 u.x3)
  composed x321 _ =
      rw (turn_twice f.x1 f'.x3 u.x1, turn_twice f.x2 f'.x2 u.x2, turn_twice f.x3 f'.x1 u.x3)

-- Offsets carried by a composition of two transformations with permuted directions are those that
-- the first and then the second carry them to.
transform_offsets-compose :
    (s t : LogicalCoordinateTransformation) (p q : Axes) (u : Triple ℤ)
    → s.dir_connection ≡ axes p
    → t.dir_connection ≡ axes q
    → transform_offsets (compose s t) u ≡ transform_offsets t (transform_offsets s u)
transform_offsets-compose s t p q u e d =
    let same_s : first s.offset t.offset s.dir_flip t.dir_flip s.use_offset t.use_offset u p ≡ s =
      ground arith in
    let same_t : second s.offset t.offset s.dir_flip t.dir_flip s.use_offset t.use_offset u q ≡ t =
      ground arith in
    subst (λ x. transform_offsets (compose x t) u ≡ transform_offsets t (transform_offsets x u))
      same_s
      (subst
        (λ y.
          transform_offsets
            (compose (first s.offset t.offset s.dir_flip t.dir_flip s.use_offset t.use_offset u p)
              y)
            u
          ≡ transform_offsets y (
              transform_offsets
                (first s.offset t.offset s.dir_flip t.dir_flip s.use_offset t.use_offset u p) u))
        same_t (composed s.offset t.offset s.dir_flip t.dir_flip s.use_offset t.use_offset u p q))
