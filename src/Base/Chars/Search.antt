-- ===== src/Base/Chars/Search.antt =====
-- Searches in a byte string, by a test on the byte: `find_first_of`, `find_first_not_of`,
-- `find_last_not_of` and `rfind`, and what `erase` leaves at their results.
use Prim.Native.Nat.{ℕ, zero, suc, ◌+◌, ◌≤◌, ◌<◌}
use mathlib.Core.Path.{◌≡◌, refl, ap}
use mathlib.Core.Logic.{inl, inr}
use mathlib.Core.Bool.{Bool, true, false, ◌||◌}
use mathlib.Core.Option.{Option, none, some}
use mathlib.Core.List.{List, [], ◌∷◌, ◌++◌}
use native.Mathlib.Omega.{arith}
use parthenon.Base.Tests.{if◌then◌else◌, Option-cases}
use parthenon.Base.Lists.{length, take, drop}

abbrev pub next {ℓ} : {A : Type ℓ} → (ℕ → A) → A → Option ℕ → A
next f a none = a
next f a (some i) = f i

-- The position of the first byte that passes the test.
unfoldable pub find_first : (ℕ → Bool) → List ℕ → Option ℕ
find_first p [] = none
find_first p (c ∷ s) = if p c then some 0 else next (λ i. some (suc i)) none (find_first p s)

-- The position of the last byte that passes the test.
unfoldable pub find_last : (ℕ → Bool) → List ℕ → Option ℕ
find_last p [] = none
find_last p (c ∷ s) = next (λ i. some (suc i)) (if p c then some 0 else none) (find_last p s)

-- Every byte fails the test.
abbrev pub AllNot : (ℕ → Bool) → List ℕ → Type 0
AllNot p [] = Unit
AllNot p (c ∷ s) = (p c ≡ false) × AllNot p s

-- s.erase(0, i), where `npos` erases everything.
abbrev pub erase_before : Option ℕ → List ℕ → List ℕ
erase_before none s = []
erase_before (some i) s = drop i s

-- s.erase(i + 1), where `npos + 1` is 0 and so erases everything.
abbrev pub erase_after : Option ℕ → List ℕ → List ℕ
erase_after none s = []
erase_after (some i) s = take (suc i) s

-- Whether one of the bytes passes.
abbrev pub any : (ℕ → Bool) → List ℕ → Bool
any p [] = false
any p (c ∷ s) = p c || any p s

pub AllNot-any : (p : ℕ → Bool) (s : List ℕ) → any p s ≡ false → AllNot p s
AllNot-any p [] h = tt
AllNot-any p (c ∷ s) h = (ground arith, AllNot-any p s (ground arith))

pub find_first-none : (p : ℕ → Bool) (s : List ℕ) → AllNot p s → find_first p s ≡ none
unfolding find_first
find_first-none p [] h = refl
find_first-none p (c ∷ s) h = rw (h.0, find_first-none p s h.1)

-- Behind bytes that fail, at a byte that passes.
pub find_first-append :
    (p : ℕ → Bool) (s : List ℕ) (c : ℕ) (t : List ℕ)
    → AllNot p s
    → p c ≡ true
    → find_first p (s ++ c ∷ t) ≡ some (length s)
unfolding find_first
find_first-append p [] c t h k = rw k
find_first-append p (x ∷ s) c t h k = rw (h.0, find_first-append p s c t h.1 k)

pub find_last-append :
    (p : ℕ → Bool) (s t : List ℕ) → AllNot p t → find_last p (s ++ t) ≡ find_last p s
unfolding find_last
find_last-append p [] [] h = refl
find_last-append p [] (c ∷ t) h = rw (find_last-append p [] t h.1, h.0)
find_last-append p (x ∷ s) t h = rw (find_last-append p s t h)

pub find_last-lt : (p : ℕ → Bool) (s : List ℕ) (i : ℕ) → find_last p s ≡ some i → i < length s
unfolding find_last
find_last-lt p [] i h = cc
find_last-lt p (x ∷ s) i h = elim (Option-cases (find_last p s)) [
  | inl e ↦ ground arith
  | inr (j, e) ↦ ground (arith, find_last-lt p s j)
]

pub take-append_le : (n : ℕ) (s t : List ℕ) → n ≤ length s → take n (s ++ t) ≡ take n s
take-append_le zero s t h = refl
take-append_le (suc n) [] t h = absurd (omega arith)
take-append_le (suc n) (x ∷ s) t h = ap (◌∷◌ x) (take-append_le n s t (omega arith))

pub take-length_append : (s t : List ℕ) → take (length s) (s ++ t) ≡ s
take-length_append [] t = refl
take-length_append (x ∷ s) t = ap (◌∷◌ x) (take-length_append s t)

pub drop-length_append : (s t : List ℕ) → drop (length s) (s ++ t) ≡ t
drop-length_append [] t = refl
drop-length_append (x ∷ s) t = drop-length_append s t

pub AllNot-append : (p : ℕ → Bool) (s t : List ℕ) → AllNot p s → AllNot p t → AllNot p (s ++ t)
AllNot-append p [] t h k = k
AllNot-append p (x ∷ s) t h k = (h.0, AllNot-append p s t h.1 k)

-- Erasing behind the last byte that passes is the same with failing bytes at the end.
pub erase_after-append :
    (p : ℕ → Bool) (s t : List ℕ)
    → AllNot p t
    → erase_after (find_last p (s ++ t)) (s ++ t) ≡ erase_after (find_last p s) s
erase_after-append p s t h = rw (find_last-append p s t h) (elim (Option-cases (find_last p s)) [
  | inl e ↦ rw e
  | inr (i, e) ↦ rw e (take-append_le (suc i) s t (find_last-lt p s i e))
])

-- Behind the byte that passes, bytes that fail.
pub find_last-hit :
    (p : ℕ → Bool) (s : List ℕ) (c : ℕ) (t : List ℕ)
    → p c ≡ true
    → AllNot p t
    → find_last p (s ++ c ∷ t) ≡ some (length s)
unfolding find_last
find_last-hit p [] c t h k = rw (find_last-append p [] t k, h)
find_last-hit p (x ∷ s) c t h k = rw (find_last-hit p s c t h k)

pub drop-length_past : (s : List ℕ) (c : ℕ) (t : List ℕ) → drop (suc (length s)) (s ++ c ∷ t) ≡ t
drop-length_past [] c t = refl
drop-length_past (x ∷ s) c t = drop-length_past s c t

pub take-past_length : (s t : List ℕ) (k : ℕ) → take (length s + k) (s ++ t) ≡ s ++ take k t
take-past_length [] t k = let e : 0 + k ≡ k = omega arith in rw e
take-past_length (x ∷ s) t k =
    let e : suc (length s) + k ≡ suc (length s + k) = omega arith in
    rw e (ap (◌∷◌ x) (take-past_length s t k))

pub take-suc-length :
    (s : List ℕ) (c : ℕ) (t : List ℕ) → take (suc (length s)) (s ++ c ∷ t) ≡ s ++ c ∷ []
take-suc-length [] c t = refl
take-suc-length (x ∷ s) c t = ap (◌∷◌ x) (take-suc-length s c t)

pub find_last-none : (p : ℕ → Bool) (s : List ℕ) → AllNot p s → find_last p s ≡ none
unfolding find_last
find_last-none p [] h = refl
find_last-none p (c ∷ s) h = rw (find_last-none p s h.1, h.0)
