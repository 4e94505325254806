-- ===== src/Base/Chars.antt =====
-- `std::string` as the list of its bytes, with the members of it that the program calls. The
-- value `npos` of a failed search is `none`.
mod Search
use Prim.Native.Char.{code}
use Prim.Native.String.{String}
use Prim.Native.String
use Prim.Native.Nat.{ℕ, suc}
use mathlib.Core.Path.{◌≡◌, refl}
use mathlib.Core.Bool.{Bool, true, false, ◌&&◌}
use mathlib.Core.List.{List, [], ◌∷◌}
use native.Mathlib.Omega.{arith}
use parthenon.Base.Tests.{◌==◌}
unfoldable pub use Search.*

abbrev pub codes : String → List ℕ
codes String.[] = []
codes (String.◌∷◌ c s) = code c ∷ codes s

-- a.compare(b) == 0
unfoldable pub eqb : List ℕ → List ℕ → Bool
eqb [] [] = true
eqb [] (y ∷ ys) = false
eqb (x ∷ xs) [] = false
eqb (x ∷ xs) (y ∷ ys) = (x == y) && eqb xs ys

pub eqb_refl : (s : List ℕ) → eqb s s ≡ true
unfolding eqb
eqb_refl [] = refl
eqb_refl (x ∷ xs) = ground (arith, eqb_refl xs)

pub eqb-eq : (s t : List ℕ) → eqb s t ≡ true → s ≡ t
unfolding eqb
eqb-eq [] [] h = refl
eqb-eq [] (y ∷ ys) h = cc
eqb-eq (x ∷ xs) [] h = cc
eqb-eq (x ∷ xs) (y ∷ ys) h = ground (arith, eqb-eq xs ys)
