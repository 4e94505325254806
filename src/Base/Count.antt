-- ===== src/Base/Count.antt =====
-- How often a number is on a list, and whether it is.
use Prim.Native.Nat.{ℕ, ◌+◌, ◌<◌}
use mathlib.Core.Path.{◌≡◌}
use mathlib.Core.Bool.{Bool, true, false, ◌||◌}
use mathlib.Core.List.{List, [], ◌∷◌, ◌++◌}
use native.Mathlib.Omega.{arith}
use parthenon.Base.Tests.{◌==◌, if◌then◌else◌}

abbrev pub flag : Bool → ℕ
flag b = if b then 1 else 0

abbrev pub count : ℕ → List ℕ → ℕ
count i [] = 0
count i (j ∷ js) = flag (i == j) + count i js

abbrev pub contains : ℕ → List ℕ → Bool
contains i [] = false
contains i (j ∷ js) = (i == j) || contains i js

pub count-append : (i : ℕ) (xs ys : List ℕ) → count i (xs ++ ys) ≡ count i xs + count i ys
count-append i [] ys = omega arith
count-append i (x ∷ xs) ys = omega (arith, count-append i xs ys)

pub count-contains : (i : ℕ) (xs : List ℕ) → 0 < count i xs → contains i xs ≡ true
count-contains i [] h = absurd (omega arith)
count-contains i (x ∷ xs) h = ground (arith, count-contains i xs)
