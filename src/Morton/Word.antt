-- ===== src/Morton/Word.antt =====
-- A `uint64_t` by its bits, least significant first; a bit from 64 on is never set.
use parthenon.Base.{
  ℕ, zero, suc, ◌+◌, ◌-◌, ◌/◌, ◌%◌, ◌^◌, ◌<◌, ltb, ◌==◌, not, ◌&&◌, ◌||◌, if◌then◌else◌, Bool, true,
  false, ◌≡◌, inl, inr, refl, arith, Bool-cases,
}
use parthenon.Base.Int.{ℤ, pos, negsuc}

abbrev pub Word : Type 0
Word = ℕ → Bool

abbrev pub is_set : ℕ → ℕ → Bool
is_set n x = x / 2 ^ n % 2 == 1

-- The conversion to `uint64_t`.
abbrev pub of_int : ℤ → Word
of_int (pos x) n = ltb n 64 && is_set n x
of_int (negsuc x) n = ltb n 64 && not (is_set n x)

abbrev pub all_set : Word
all_set n = ltb n 64

abbrev pub complement : Word → Word
complement a n = ltb n 64 && not (a n)

abbrev pub either : Word → Word → Word
either a b n = a n || b n

abbrev pub masked : Word → Word → Word
masked a b n = a n && b n

abbrev pub shift_left : Word → ℕ → Word
shift_left a k n = ltb n 64 && (if ltb n k then false else a (n - k))

abbrev pub shift_right : Word → ℕ → Word
shift_right a k n = a (n + k)

abbrev pub eqb_Bool : Bool → Bool → Bool
eqb_Bool true b = b
eqb_Bool false b = not b

-- The comparisons of the numbers, by the highest of the first `k` bits in which they differ.
unfoldable pub less : ℕ → Word → Word → Bool
less zero a b = false
less (suc k) a b = let rest = less k a b in if eqb_Bool (a k) (b k) then rest else b k

unfoldable pub equal : ℕ → Word → Word → Bool
equal zero a b = true
equal (suc k) a b = equal k a b && eqb_Bool (a k) (b k)

pub less-asym : (k : ℕ) (a b : Word) → less k a b ≡ true → less k b a ≡ false
unfolding less
less-asym zero a b h = cc
less-asym (suc k) a b h = ground (arith, less-asym k a b)

pub less_total : (k : ℕ) (a b : Word) → less k a b ≡ false → less k b a ≡ false → equal k a b ≡ true
unfolding less equal
less_total zero a b h g = refl
less_total (suc k) a b h g = ground (arith, less_total k a b)

pub equal-less : (k : ℕ) (a b : Word) → equal k a b ≡ true → less k a b ≡ false
unfolding less equal
equal-less zero a b h = refl
equal-less (suc k) a b h = ground (arith, equal-less k a b)

pub equal_sym : (k : ℕ) (a b : Word) → equal k a b ≡ equal k b a
unfolding equal
equal_sym zero a b = refl
equal_sym (suc k) a b = ground (arith, equal_sym k a b)

pub equal-at : (k : ℕ) (a b : Word) → equal k a b ≡ true → (n : ℕ) → n < k → a n ≡ b n
unfolding equal
equal-at zero a b h n lt = absurd (omega arith)
equal-at (suc k) a b h n lt = elim (Bool-cases (n == k)) [
  | inl e ↦ let same : n ≡ k = ground arith in rw same (ground arith)
  | inr e ↦ equal-at k a b (ground arith) n (ground arith)
]
