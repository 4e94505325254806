-- ===== src/Base/Compare.antt =====
-- A property of every item of a list, and of every branch of a test.
use Prim.Native.Nat.{ℕ, zero, suc}
use mathlib.Core.Path.{◌≡◌, refl}
use mathlib.Core.Option.{Option, none, some}
use parthenon.Base.Lists.{get_elem?, set}
use mathlib.Core.Bool.{Bool, true, false, not}
use mathlib.Core.List.{List, [], ◌∷◌, ◌++◌}
use parthenon.Base.Tests.{if◌then◌else◌}

-- A property of every item of a list, which computes to a tuple.
abbrev pub All {ℓ κ} : {A : Type ℓ} → (A → Type κ) → List A → Type κ
All P [] = Unit
All P (x ∷ xs) = P x × All P xs

-- What both branches satisfy.
pub if-elim {ℓ κ} :
    {A : Type ℓ} (P : A → Type κ) (b : Bool) (x y : A) → P x → P y → P (if b then x else y)
if-elim P true x y h k = h
if-elim P false x y h k = k

pub All-append {ℓ κ} :
    {A : Type ℓ} (P : A → Type κ) (xs ys : List A) → All P xs → All P ys → All P (xs ++ ys)
All-append P [] ys h k = k
All-append P (x ∷ xs) ys h k = (h.0, All-append P xs ys h.1 k)

pub get_elem?-All {ℓ} :
    {A : Type ℓ} (P : A → Type 0) (xs : List A) (i : ℕ) (x : A)
    → All P xs
    → get_elem? xs i ≡ some x
    → P x
get_elem?-All P [] i x h e = cc
get_elem?-All P (y ∷ ys) zero x h e = let same : y ≡ x = cc in rw same at h.0
get_elem?-All P (y ∷ ys) (suc i) x h e = get_elem?-All P ys i x h.1 e

pub set-All {ℓ} :
    {A : Type ℓ} (P : A → Type 0) (xs : List A) (i : ℕ) (x : A)
    → All P xs
    → P x
    → All P (set xs i x)
set-All P [] i x h p = tt
set-All P (y ∷ ys) zero x h p = (p, h.1)
set-All P (y ∷ ys) (suc i) x h p = (h.0, set-All P ys i x h.1 p)

-- What every branch satisfies, with the equation that leads to it.
pub Option-elim {ℓ κ} :
    {A : Type ℓ} {B : Type κ} (P : B → Type 0) (o : Option A) (n : B) (s : A → B)
    → (o ≡ none → P n)
    → ((x : A) → o ≡ some x → P (s x))
    → P (elim o [ none ↦ n | some x ↦ s x ])
Option-elim P none n s h k = h refl
Option-elim P (some x) n s h k = k x refl

pub unless-elim {ℓ} :
    {A : Type ℓ} (P : A → Type 0) (b : Bool) (x y : A)
    → (b ≡ false → P x)
    → (b ≡ true → P y)
    → P (if not b then x else y)
unless-elim P true x y h k = k refl
unless-elim P false x y h k = h refl

-- What both branches satisfy, with the equation that leads to each.
pub test-elim {ℓ} :
    {A : Type ℓ} (P : A → Type 0) (b : Bool) (x y : A)
    → (b ≡ true → P x)
    → (b ≡ false → P y)
    → P (if b then x else y)
test-elim P true x y h k = h refl
test-elim P false x y h k = k refl
