-- ===== src/Forest/Transformation.antt =====
-- LogicalCoordinateTransformation of src/mesh/forest/logical_coordinate_transformation.hpp and .cpp:
-- the index of a block in the coordinates of a neighbouring tree.
pub mod Elements
use parthenon.Base.{
  ℕ, zero, suc, ◌+◌, ◌-◌, ◌==◌, ◌&&◌, not, if◌then◌else◌, Bool, true, false, ◌≡◌, refl, ◌^◌, arith,
  sym, subst,
}
use parthenon.Base.Int.{ℤ, pos, negsuc, pos_part, neg_part, sub_ℕ, ◌+ℤ◌, ◌-ℤ◌, times, rem, int_laws}
use parthenon.Location.Defs.{LogicalLocation, blocks}

-- The three values of an array over the directions.
pub record Triple {ℓ} (A : Type ℓ) : Type ℓ where
  pub x1 : A
  pub x2 : A
  pub x3 : A

abbrev pub at {ℓ} : {A : Type ℓ} → Triple A → ℕ → A
at t zero = t.x1
at t (suc zero) = t.x2
at t (suc (suc n)) = t.x3

abbrev pub put {ℓ} : {A : Type ℓ} → ℕ → A → Triple A → Triple A
put zero v t = record t { x1 = v }
put (suc zero) v t = record t { x2 = v }
put (suc (suc n)) v t = record t { x3 = v }

-- `dir_connection` holds directions 0, 1 and 2.
pub record LogicalCoordinateTransformation : Type 0 where
  pub use_offset : Bool
  pub offset : Triple ℤ
  pub dir_connection : Triple ℕ
  pub dir_flip : Triple Bool

abbrev pub indices : LogicalLocation → Triple ℤ
indices a = record { x1 = a.lx1; x2 = a.lx2; x3 = a.lx3 }

-- Into the interior of the bordering tree, and out of it.
abbrev pub shift_in : Bool → ℤ → ℕ → ℤ → ℤ
shift_in use_offset offset nblock l =
    if use_offset then l -ℤ times offset nblock else rem (l +ℤ pos nblock) nblock

abbrev pub shift_out : Bool → ℤ → ℕ → ℤ → ℤ
shift_out use_offset offset nblock l =
    if use_offset then l +ℤ times offset nblock else rem (l +ℤ pos nblock) nblock

abbrev pub flip : Bool → ℕ → ℤ → ℤ
flip flipped nblock l = if flipped then pos nblock -ℤ pos 1 -ℤ l else l

-- The new index of one direction of the origin.
unfoldable pub forward : LogicalCoordinateTransformation → ℕ → LogicalLocation → ℕ → ℤ
forward t nblock a dir =
    flip (at t.dir_flip dir) nblock
      (shift_in t.use_offset (at t.offset dir) nblock (at (indices a) dir))

-- The entries of `l_out` that no direction is connected to are unset in the source; there are none where
-- the directions are permuted.
unfoldable pub transform : LogicalCoordinateTransformation → LogicalLocation → ℤ → LogicalLocation
transform t a destination =
    let nblock = blocks a.level in
    let one = put (at t.dir_connection 0) (forward t nblock a 0) (indices a) in
    let two = put (at t.dir_connection 1) (forward t nblock a 1) one in
    let out = put (at t.dir_connection 2) (forward t nblock a 2) two in
    record { tree = destination; level = a.level; lx1 = out.x1; lx2 = out.x2; lx3 = out.x3 }

unfoldable pub backward : LogicalCoordinateTransformation → ℕ → LogicalLocation → ℕ → ℤ
backward t nblock a dir =
    shift_out t.use_offset (at t.offset dir) nblock
      (flip (at t.dir_flip dir) nblock (at (indices a) (at t.dir_connection dir)))

unfoldable pub inverse_transform :
    LogicalCoordinateTransformation → LogicalLocation → ℤ → LogicalLocation
inverse_transform t a origin =
    let nblock = blocks a.level in
    record {
      tree = origin;
      level = a.level;
      lx1 = backward t nblock a 0;
      lx2 = backward t nblock a 1;
      lx3 = backward t nblock a 2;
    }

-- The ways in which the directions can be permuted.
pub data Axes : Type 0 where
  x123 x132 x213 x231 x312 x321 : Axes

abbrev pub axes : Axes → Triple ℕ
axes x123 = record { x1 = 0; x2 = 1; x3 = 2 }
axes x132 = record { x1 = 0; x2 = 2; x3 = 1 }
axes x213 = record { x1 = 1; x2 = 0; x3 = 2 }
axes x231 = record { x1 = 1; x2 = 2; x3 = 0 }
axes x312 = record { x1 = 2; x2 = 0; x3 = 1 }
axes x321 = record { x1 = 2; x2 = 1; x3 = 0 }

there_and_back :
    (flipped : Bool) (offset : ℤ) (nblock : ℕ) (l : ℤ)
    → shift_out true offset nblock
        (flip flipped nblock (flip flipped nblock (shift_in true offset nblock l)))
      ≡ l
there_and_back true offset nblock l = omega int_laws
there_and_back false offset nblock l = omega int_laws

abbrev oriented : Axes → Triple ℤ → Triple Bool → LogicalCoordinateTransformation
oriented p offset flips = record {
  use_offset = true;
  offset = offset;
  dir_connection = axes p;
  dir_flip = flips;
}

oriented-inverse :
    (p : Axes) (offset : Triple ℤ) (flips : Triple Bool) (a : LogicalLocation) (destination : ℤ)
    → let t = oriented p offset flips in inverse_transform t (transform t a destination) a.tree ≡ a
unfolding inverse_transform transform forward backward
oriented-inverse x123 o f a destination = rw (
  there_and_back f.x1 o.x1 (blocks a.level) a.lx1,
  there_and_back f.x2 o.x2 (blocks a.level) a.lx2,
  there_and_back f.x3 o.x3 (blocks a.level) a.lx3,
)
oriented-inverse _ o f a destination = rw (
  there_and_back f.x1 o.x1 (blocks a.level) a.lx1,
  there_and_back f.x2 o.x2 (blocks a.level) a.lx2,
  there_and_back f.x3 o.x3 (blocks a.level) a.lx3,
)

-- With an offset and permuted directions, the inverse transformation undoes the transformation of
-- every location.
pub inverse_transform-transform :
    (t : LogicalCoordinateTransformation) (p : Axes) (a : LogicalLocation) (destination : ℤ)
    → t.use_offset ≡ true
    → t.dir_connection ≡ axes p
    → inverse_transform t (transform t a destination) a.tree ≡ a
inverse_transform-transform t p a destination u e =
    let same : t ≡ oriented p t.offset t.dir_flip = ground arith in
    subst (λ s. inverse_transform s (transform s a destination) a.tree ≡ a) (sym same)
      (oriented-inverse p t.offset t.dir_flip a destination)
