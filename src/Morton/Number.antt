-- ===== src/Morton/Number.antt =====
-- MortonNumber of src/utils/morton_number.hpp, and that it tells the locations of a level apart.
use native.Mathlib.Nat.{div-div-eq-div-mul, pow-succ'}
use parthenon.Base.{
  ℕ, zero, suc, ◌+◌, ◌-◌, ◌*◌, ◌/◌, ◌%◌, ◌^◌, ◌<◌, ◌≤◌, ◌&&◌, if◌then◌else◌, Bool, true, false, ◌≡◌,
  ◌≢◌, sym, ap, ◌∙◌, arith,
}
use parthenon.Base.Int.{pos}
use parthenon.Morton.Word.{
  Word, is_set, of_int, all_set, complement, either, masked, shift_left, shift_right, less, equal,
  less-asym, less_total, equal_sym, equal-at,
}
use parthenon.Morton.Interleave.{interleave_zeros, interleave_zeros-at}

-- 21 bits.
abbrev pub chunk_of : Word → ℕ → Word
chunk_of a chunk = masked (shift_right a (chunk * 21)) (complement (shift_left all_set 21))

-- A level is at most 63, so that the shift is not negative.
abbrev pub at_level : ℕ → Word → Word
at_level level a = shift_left a (63 - level)

unfoldable pub get_morton_bits : ℕ → Word → Word → Word → ℕ → Word
get_morton_bits level x y z chunk =
    let xs = interleave_zeros (chunk_of (at_level level x) chunk) in
    let ys = interleave_zeros (chunk_of (at_level level y) chunk) in
    let zs = interleave_zeros (chunk_of (at_level level z) chunk) in
    either (either (shift_left zs 2) (shift_left ys 1)) xs

-- From the most to the least significant.
pub record MortonNumber : Type 0 where
  pub bits0 : Word
  pub bits1 : Word
  pub bits2 : Word

unfoldable pub morton : ℕ → Word → Word → Word → MortonNumber
morton level x y z = record {
  bits0 = get_morton_bits level x y z 2;
  bits1 = get_morton_bits level x y z 1;
  bits2 = get_morton_bits level x y z 0;
}

unfoldable pub morton_less : MortonNumber → MortonNumber → Bool
morton_less a b =
    if equal 64 a.bits0 b.bits0 && equal 64 a.bits1 b.bits1
    then less 64 a.bits2 b.bits2
    else (if equal 64 a.bits0 b.bits0 then less 64 a.bits1 b.bits1 else less 64 a.bits0 b.bits0)

unfoldable pub morton_equal : MortonNumber → MortonNumber → Bool
morton_equal a b = equal 64 a.bits2 b.bits2 && equal 64 a.bits1 b.bits1 && equal 64 a.bits0 b.bits0

pub morton_less-asym : (a b : MortonNumber) → morton_less a b ≡ true → morton_less b a ≡ false
unfolding morton_less
morton_less-asym a b h = ground (
  arith,
  equal_sym 64 a.bits0 b.bits0,
  equal_sym 64 a.bits1 b.bits1,
  less-asym 64 a.bits0 b.bits0,
  less-asym 64 a.bits1 b.bits1,
  less-asym 64 a.bits2 b.bits2,
)

pub morton_less_total :
    (a b : MortonNumber)
    → morton_less a b ≡ false
    → morton_less b a ≡ false
    → morton_equal a b ≡ true
unfolding morton_less morton_equal
morton_less_total a b h g = ground (
  arith,
  equal_sym 64 a.bits0 b.bits0,
  equal_sym 64 a.bits1 b.bits1,
  less_total 64 a.bits0 b.bits0,
  less_total 64 a.bits1 b.bits1,
  less_total 64 a.bits2 b.bits2,
)

chunk_of-narrow : (a : Word) (c n : ℕ) → 21 ≤ n → chunk_of a c n ≡ false
chunk_of-narrow a c n h = ground arith

module _ (level : ℕ) (a : Word) (c : ℕ) where
  interleaved :
      (i : ℕ)
      → i < 21
      → interleave_zeros (chunk_of (at_level level a) c) (3 * i) ≡ at_level level a (i + c * 21)
  interleaved i h =
      let e =
        interleave_zeros-at (chunk_of (at_level level a) c) (chunk_of-narrow (at_level level a) c)
          (3 * i) in
      let bit : 3 * i / 3 ≡ i = omega arith in ground (arith, e, bit)

  interleaved_zero :
      (n : ℕ) → n < 64 → n % 3 ≢ 0 → interleave_zeros (chunk_of (at_level level a) c) n ≡ false
  interleaved_zero n h k = ground (
    arith,
    interleave_zeros-at (chunk_of (at_level level a) c) (chunk_of-narrow (at_level level a) c) n h,
  )

module _ (level : ℕ) (x y z : Word) (c : ℕ) where
  -- Bit `i` of the chunk of `x`.
  get_morton_bits-x :
      (i : ℕ) → i < 21 → get_morton_bits level x y z c (3 * i) ≡ at_level level x (i + c * 21)
  unfolding get_morton_bits
  get_morton_bits-x i h =
      let own = interleaved level x c i h in
      ground
        (arith, own, interleaved_zero level y c (3 * i - 1), interleaved_zero level z c (3 * i - 2))

  -- Bit `i` of the chunk of `y`.
  get_morton_bits-y :
      (i : ℕ) → i < 21 → get_morton_bits level x y z c (3 * i + 1) ≡ at_level level y (i + c * 21)
  unfolding get_morton_bits
  get_morton_bits-y i h =
      let own = interleaved level y c i h in
      ground
        (arith, own, interleaved_zero level x c (3 * i + 1), interleaved_zero level z c (3 * i - 1))

  -- Bit `i` of the chunk of `z`.
  get_morton_bits-z :
      (i : ℕ) → i < 21 → get_morton_bits level x y z c (3 * i + 2) ≡ at_level level z (i + c * 21)
  unfolding get_morton_bits
  get_morton_bits-z i h =
      let own = interleaved level z c i h in
      ground
        (arith, own, interleaved_zero level x c (3 * i + 2), interleaved_zero level y c (3 * i + 1))

  get_morton_bits-at :
      (i : ℕ)
      → i < 21
      → (get_morton_bits level x y z c (3 * i) ≡ at_level level x (i + c * 21))
        × (get_morton_bits level x y z c (3 * i + 1) ≡ at_level level y (i + c * 21))
        × (get_morton_bits level x y z c (3 * i + 2) ≡ at_level level z (i + c * 21))
  get_morton_bits-at i h = (get_morton_bits-x i h, get_morton_bits-y i h, get_morton_bits-z i h)

-- What equal Morton numbers say of a bit of the three coordinates.
module _ (level : ℕ) (x y z x' y' z' : Word)
    (e : morton_equal (morton level x y z) (morton level x' y' z') ≡ true) where
  chunk_equal :
      (c : ℕ)
      → c < 3
      → equal 64 (get_morton_bits level x y z c) (get_morton_bits level x' y' z' c) ≡ true
  unfolding morton morton_equal
  chunk_equal zero h = ground arith
  chunk_equal (suc zero) h = ground arith
  chunk_equal (suc (suc zero)) h = ground arith
  chunk_equal (suc (suc (suc c))) h = absurd (omega arith)

  shifted_equal :
      (c i : ℕ)
      → c < 3
      → i < 21
      → (at_level level x (i + c * 21) ≡ at_level level x' (i + c * 21))
        × (at_level level y (i + c * 21) ≡ at_level level y' (i + c * 21))
        × (at_level level z (i + c * 21) ≡ at_level level z' (i + c * 21))
  shifted_equal c i hc hi =
      let (p, q, r) = get_morton_bits-at level x y z c i hi in
      let (p', q', r') = get_morton_bits-at level x' y' z' c i hi in
      let same =
        equal-at 64 (get_morton_bits level x y z c) (get_morton_bits level x' y' z' c)
          (chunk_equal c hc) in
      (
        sym p ∙ same (3 * i) (omega arith) ∙ p',
        sym q ∙ same (3 * i + 1) (omega arith) ∙ q',
        sym r ∙ same (3 * i + 2) (omega arith) ∙ r',
      )

  -- Bit `n` of a coordinate, for a level of at most 63.
  bits_equal : level ≤ 63 → (n : ℕ) → n < level → (x n ≡ x' n) × (y n ≡ y' n) × (z n ≡ z' n)
  bits_equal lv n h =
      let j : ℕ = 63 - level + n in
      let k = shifted_equal (j / 21) (j % 21) (omega arith) (omega arith) in ground arith

is_set-suc : (n x : ℕ) → is_set (suc n) x ≡ is_set n (x / 2)
is_set-suc n x =
    let e : x / 2 ^ suc n ≡ x / 2 / 2 ^ n =
      ap (λ (k : ℕ). x / k) (pow-succ' 2 n) ∙ sym (div-div-eq-div-mul x 2 (2 ^ n)) in
    rw e

bits_ext : (k x y : ℕ) → x < 2 ^ k → y < 2 ^ k → ((n : ℕ) → n < k → is_set n x ≡ is_set n y) → x ≡ y
bits_ext zero x y hx hy h = omega arith
bits_ext (suc k) x y hx hy h =
    let low = h 0 (omega arith) in
    let high =
      bits_ext k (x / 2) (y / 2) (omega (arith, pow-succ' 2 k)) (omega (arith, pow-succ' 2 k))
        (λ n lt. sym (is_set-suc n x) ∙ h (suc n) (omega arith) ∙ is_set-suc n y) in
    ground arith

of_int-ext :
    (level : ℕ) (x y : ℕ)
    → level ≤ 63
    → x < 2 ^ level
    → y < 2 ^ level
    → ((n : ℕ) → n < level → of_int (pos x) n ≡ of_int (pos y) n)
    → x ≡ y
of_int-ext level x y lv hx hy h = bits_ext level x y hx hy λ n lt. ground (arith, h n)

abbrev pub morton_at : ℕ → ℕ → ℕ → ℕ → MortonNumber
morton_at level x y z = morton level (of_int (pos x)) (of_int (pos y)) (of_int (pos z))

-- At a level of at most 63, locations inside the level that have equal Morton numbers have equal
-- indices.
pub morton-injective :
    (level x y z x' y' z' : ℕ)
    → level ≤ 63
    → (x < 2 ^ level) × (y < 2 ^ level) × (z < 2 ^ level)
    → (x' < 2 ^ level) × (y' < 2 ^ level) × (z' < 2 ^ level)
    → morton_equal (morton_at level x y z) (morton_at level x' y' z') ≡ true
    → (x ≡ x') × (y ≡ y') × (z ≡ z')
morton-injective level x y z x' y' z' lv b b' e =
    let same =
      bits_equal level (of_int (pos x)) (of_int (pos y)) (of_int (pos z)) (of_int (pos x'))
        (of_int (pos y')) (of_int (pos z')) e lv in
    (
      of_int-ext level x x' lv b.0 b'.0 (λ n h. (same n h).0),
      of_int-ext level y y' lv b.1 b'.1 (λ n h. (same n h).1),
      of_int-ext level z z' lv b.2 b'.2 (λ n h. (same n h).2),
    )
