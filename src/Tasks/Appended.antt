-- ===== src/Tasks/Appended.antt =====
-- Lists with one or two more items, as a new list of tasks of src/tasks/tasks.hpp adds them.
use parthenon.Base.{
  ℕ, zero, suc, ◌==◌, ◌||◌, some, List, [], ◌∷◌, ◌++◌, get_elem?, length, ◌≡◌, ◌⊎◌, inl, inr, refl,
  ap, arith, contains,
}
use parthenon.Tasks.Task.{Task}
use parthenon.Tasks.Build.{TaskList}
use parthenon.Tasks.Views.{view}
use parthenon.Tasks.Built.{firsts}

pub contains-append :
    (i : ℕ) (xs : List ℕ) (x : ℕ) → contains i (xs ++ x ∷ []) ≡ (contains i xs || (i == x))
contains-append i [] x = ground arith
contains-append i (y ∷ ys) x = ground (arith, contains-append i ys x)

pub firsts-append :
    (ls : List TaskList) (l : TaskList) → firsts (ls ++ l ∷ []) ≡ firsts ls ++ l.first ∷ []
firsts-append [] l = refl
firsts-append (o ∷ ls) l = ap (λ (js : List ℕ). o.first ∷ js) (firsts-append ls l)

-- Where an item of a list with two more comes from.
pub append2-from {ℓ} :
    {A : Type ℓ} (xs : List A) (x x' : A) (i : ℕ) (y : A)
    → get_elem? (xs ++ x ∷ x' ∷ []) i ≡ some y
    → (get_elem? xs i ≡ some y) ⊎ (((i ≡ length xs) × (y ≡ x)) ⊎ ((i ≡ suc (length xs)) × (y ≡ x')))
append2-from [] x x' zero y h = inr (inl (refl, cc))
append2-from [] x x' (suc zero) y h = inr (inr (refl, cc))
append2-from [] x x' (suc (suc i)) y h = absurd cc
append2-from (z ∷ xs) x x' zero y h = inl h
append2-from (z ∷ xs) x x' (suc i) y h = elim (append2-from xs x x' i y h) [
  | inl e ↦ inl e
  | inr (inl e) ↦ inr (inl (ap suc e.0, e.1))
  | inr (inr e) ↦ inr (inr (ap suc e.0, e.1))
]

pub get-append_here {ℓ} :
    {A : Type ℓ} (xs : List A) (x x' : A) → get_elem? (xs ++ x ∷ x' ∷ []) (length xs) ≡ some x
get-append_here [] x x' = refl
get-append_here (z ∷ xs) x x' = get-append_here xs x x'

pub get-append_old {ℓ} :
    {A : Type ℓ} (xs ys : List A) (i : ℕ) (y : A)
    → get_elem? xs i ≡ some y
    → get_elem? (xs ++ ys) i ≡ some y
get-append_old [] ys i y h = absurd cc
get-append_old (z ∷ xs) ys zero y h = h
get-append_old (z ∷ xs) ys (suc i) y h = get-append_old xs ys i y h

-- Two more tasks of which the default is read.
pub view-append2 {ℓ} :
    {A : Type ℓ} (d : A) (f : Task → A) (ts : List Task) (t : Task) (j : ℕ)
    → f t ≡ d
    → view d f (ts ++ t ∷ t ∷ []) j ≡ view d f ts j
view-append2 d f [] t zero h = h
view-append2 d f [] t (suc zero) h = h
view-append2 d f [] t (suc (suc j)) h = refl
view-append2 d f (u ∷ ts) t zero h = refl
view-append2 d f (u ∷ ts) t (suc j) h = view-append2 d f ts t j h
