-- ===== src/Base/Vector.antt =====
-- Vectors of Boolean values, read with a default.
use Prim.Native.Nat.{ℕ, zero, suc, ◌-◌}
use mathlib.Core.Path.{◌≡◌}
use mathlib.Core.Bool.{Bool, ◌&&◌}
use mathlib.Core.List.{List, [], ◌∷◌, ◌++◌}
use native.Mathlib.Omega.{arith}
use parthenon.Base.Tests.{ltb, ◌==◌, if◌then◌else◌}
use parthenon.Base.Lists.{get_or, set, replicate, length}

pub get_or-replicate :
    (i n : ℕ) (b d : Bool) → get_or (replicate n b) i d ≡ (if ltb i n then b else d)
get_or-replicate i zero b d = ground arith
get_or-replicate zero (suc n) b d = ground arith
get_or-replicate (suc i) (suc n) b d = ground (arith, get_or-replicate i n b d)

pub get_or-append :
    (i : ℕ) (xs ys : List Bool) (d : Bool)
    → get_or (xs ++ ys) i d
      ≡ (if ltb i (length xs) then get_or xs i d else get_or ys (i - length xs) d)
get_or-append i [] ys d = ground arith
get_or-append zero (x ∷ xs) ys d = ground arith
get_or-append (suc i) (x ∷ xs) ys d = ground (arith, get_or-append i xs ys d)

pub get_or-set :
    (xs : List Bool) (n i : ℕ) (b d : Bool)
    → get_or (set xs n b) i d ≡ (if i == n && ltb n (length xs) then b else get_or xs i d)
get_or-set [] n i b d = ground arith
get_or-set (x ∷ xs) zero zero b d = ground arith
get_or-set (x ∷ xs) zero (suc i) b d = ground arith
get_or-set (x ∷ xs) (suc n) zero b d = ground arith
get_or-set (x ∷ xs) (suc n) (suc i) b d = ground (arith, get_or-set xs n i b d)
