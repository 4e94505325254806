-- ===== src/Morton/Interleave.antt =====
-- InterleaveZeros of src/utils/bit_hacks.hpp, for three dimensions and 21 valid bits.
use parthenon.Base.{
  ℕ, zero, suc, ◌+◌, ◌-◌, ◌*◌, ◌/◌, ◌%◌, ◌<◌, ◌≤◌, ltb, leb, ◌==◌, if◌then◌else◌, true, false, ◌≡◌,
  refl, arith,
}
use parthenon.Morton.Word.{Word, all_set, complement, either, masked, shift_left, equal, equal-at}

-- The loop of GetInterleaveConstant, with fuel for the halvings of the shift.
unfoldable pub spread : ℕ → ℕ → ℕ → Word → Word
spread zero power shift c = c
spread (suc f) power shift c =
    let next =
      spread f power (shift / 2) (if ltb shift 64 then either (shift_left c shift) c else c) in
    if leb (3 * power) shift then next else c

-- The shift starts at 192, and is below 3 after seven halvings.
unfoldable pub interleave_constant : ℕ → Word
unfolding spread
interleave_constant power =
    if leb 64 power then all_set else spread 8 power 192 (complement (shift_left all_set power))

unfoldable pub stage : ℕ → Word → Word
stage power x = masked (either x (shift_left x (power * 2))) (interleave_constant power)

unfoldable pub interleave_zeros : Word → Word
interleave_zeros x = stage 1 (stage 2 (stage 4 (stage 8 (stage 16 x))))

-- Groups of `p` bits, with two groups of zeros behind each.
abbrev grouped : ℕ → Word → Word
grouped p x n = if ltb (n % (3 * p)) p then x (p * (n / (3 * p)) + n % (3 * p)) else false

-- The bits of the first group of each three.
abbrev pattern_of : ℕ → Word
pattern_of p n = ltb (n % (3 * p)) p

masks :
    (p : ℕ)
    → equal 64 (interleave_constant p) (pattern_of p) ≡ true
    → (n : ℕ) → n < 64
    → interleave_constant p n ≡ ltb (n % (3 * p)) p
masks p h n lt = equal-at 64 (interleave_constant p) (pattern_of p) h n lt

mask16 : equal 64 (interleave_constant 16) (pattern_of 16) ≡ true
unfolding equal interleave_constant spread
mask16 = refl

mask8 : equal 64 (interleave_constant 8) (pattern_of 8) ≡ true
unfolding equal interleave_constant spread
mask8 = refl

mask4 : equal 64 (interleave_constant 4) (pattern_of 4) ≡ true
unfolding equal interleave_constant spread
mask4 = refl

mask2 : equal 64 (interleave_constant 2) (pattern_of 2) ≡ true
unfolding equal interleave_constant spread
mask2 = refl

mask1 : equal 64 (interleave_constant 1) (pattern_of 1) ≡ true
unfolding equal interleave_constant spread
mask1 = refl

stage16-grouped :
    (t x : Word)
    → ((n : ℕ) → n < 64 → t n ≡ grouped 32 x n)
    → (n : ℕ) → n < 64
    → stage 16 t n ≡ grouped 16 x n
unfolding stage
stage16-grouped t x h n lt = ground (arith, h n, h (n - 32), masks 16 mask16 n lt)

stage8-grouped :
    (t x : Word)
    → ((n : ℕ) → n < 64 → t n ≡ grouped 16 x n)
    → (n : ℕ) → n < 64
    → stage 8 t n ≡ grouped 8 x n
unfolding stage
stage8-grouped t x h n lt = ground (arith, h n, h (n - 16), masks 8 mask8 n lt)

stage4-grouped :
    (t x : Word)
    → ((n : ℕ) → n < 64 → t n ≡ grouped 8 x n)
    → (n : ℕ) → n < 64
    → stage 4 t n ≡ grouped 4 x n
unfolding stage
stage4-grouped t x h n lt = ground (arith, h n, h (n - 8), masks 4 mask4 n lt)

stage2-grouped :
    (t x : Word)
    → ((n : ℕ) → n < 64 → t n ≡ grouped 4 x n)
    → (n : ℕ) → n < 64
    → stage 2 t n ≡ grouped 2 x n
unfolding stage
stage2-grouped t x h n lt = ground (arith, h n, h (n - 4), masks 2 mask2 n lt)

stage1-grouped :
    (t x : Word)
    → ((n : ℕ) → n < 64 → t n ≡ grouped 2 x n)
    → (n : ℕ) → n < 64
    → stage 1 t n ≡ grouped 1 x n
unfolding stage
stage1-grouped t x h n lt = ground (arith, h n, h (n - 2), masks 1 mask1 n lt)

wide : (x : Word) → ((n : ℕ) → 21 ≤ n → x n ≡ false) → (n : ℕ) → n < 64 → x n ≡ grouped 32 x n
wide x h n lt = ground (arith, h n)

-- Of a number below 2^21, InterleaveZeros moves bit i to bit 3 i and leaves all other bits of the
-- 64 unset.
pub interleave_zeros-at :
    (x : Word)
    → ((n : ℕ) → 21 ≤ n → x n ≡ false)
    → (n : ℕ) → n < 64
    → interleave_zeros x n ≡ (if n % 3 == 0 then x (n / 3) else false)
unfolding interleave_zeros
interleave_zeros-at x h n lt =
    let last =
      stage1-grouped _ x
        (stage2-grouped _ x
          (stage4-grouped _ x (stage8-grouped _ x (stage16-grouped _ x (wide x h)))))
        n lt in
    ground (arith, last)
