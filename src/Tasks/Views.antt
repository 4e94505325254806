-- ===== src/Tasks/Views.antt =====
-- What is read of the tasks while a region of src/tasks/tasks.hpp runs.
use parthenon.Base.{
  ℕ, zero, suc, ◌<◌, ◌==◌, not, ◌&&◌, if◌then◌else◌, Bool, true, false, none, some, List, [], ◌∷◌,
  get_elem?, ◌++◌, set, length, ◌≡◌, refl, sym, ap, ◌∙◌, arith, All,
}
use parthenon.Tasks.Task.{incomplete, is_incomplete, is_completion, Task, ready_on, reset_iteration}
use parthenon.Tasks.Execute.{
  Body, user, skipped, first_task, last_task, set_status, update, update_all, run_body,
}

-- What is read of the task at a position.
abbrev pub view {ℓ} : {A : Type ℓ} → A → (Task → A) → List Task → ℕ → A
view d f [] i = d
view d f (t ∷ ts) zero = f t
view d f (t ∷ ts) (suc i) = view d f ts i

abbrev pub done : List Task → ℕ → Bool
done ts i = view false (λ t. not (is_incomplete t.task_status)) ts i

abbrev pub deps : List Task → ℕ → List ℕ
deps ts i = view [] (λ t. t.dependencies) ts i

abbrev pub is_normal : List Task → ℕ → Bool
is_normal ts i = view true (λ t. not (is_completion t.task_type)) ts i

pub view-update_same {ℓ} :
    {A : Type ℓ} (d : A) (f : Task → A) (g : Task → Task)
    → ((t : Task) → f (g t) ≡ f t)
    → (i j : ℕ) (ts : List Task) → view d f (update i g ts) j ≡ view d f ts j
unfolding update
view-update_same d f g h i j [] = refl
view-update_same d f g h zero zero (t ∷ ts) = h t
view-update_same d f g h zero (suc j) (t ∷ ts) = refl
view-update_same d f g h (suc i) zero (t ∷ ts) = refl
view-update_same d f g h (suc i) (suc j) (t ∷ ts) = view-update_same d f g h i j ts

pub view-update_all {ℓ} :
    {A : Type ℓ} (d : A) (f : Task → A) (g : Task → Task)
    → ((t : Task) → f (g t) ≡ f t)
    → (is : List ℕ) (j : ℕ) (ts : List Task) → view d f (update_all is g ts) j ≡ view d f ts j
unfolding update_all
view-update_all d f g h [] j ts = refl
view-update_all d f g h (i ∷ is) j ts =
    view-update_all d f g h is j (update i g ts) ∙ view-update_same d f g h i j ts

pub length-update : (i : ℕ) (g : Task → Task) (ts : List Task) → length (update i g ts) ≡ length ts
unfolding update
length-update i g [] = refl
length-update zero g (t ∷ ts) = refl
length-update (suc i) g (t ∷ ts) = ap suc (length-update i g ts)

pub length-update_all :
    (is : List ℕ) (g : Task → Task) (ts : List Task) → length (update_all is g ts) ≡ length ts
unfolding update_all
length-update_all [] g ts = refl
length-update_all (i ∷ is) g ts = length-update_all is g (update i g ts) ∙ length-update i g ts

pub length-run_body : (b : Body) (ts : List Task) → length (run_body b ts) ≡ length ts
unfolding run_body
length-run_body user ts = refl
length-run_body skipped ts = refl
length-run_body (first_task is) ts = length-update_all is (set_status incomplete) ts
length-run_body (last_task is) ts = length-update_all is reset_iteration ts

pub deps-run_body : (b : Body) (ts : List Task) (i : ℕ) → deps (run_body b ts) i ≡ deps ts i
unfolding run_body reset_iteration
deps-run_body user ts i = refl
deps-run_body skipped ts i = refl
deps-run_body (first_task is) ts i =
    view-update_all [] (λ t. t.dependencies) (set_status incomplete) (λ t. refl) is i ts
deps-run_body (last_task is) ts i =
    view-update_all [] (λ t. t.dependencies) reset_iteration (λ t. refl) is i ts

pub is_normal-run_body :
    (b : Body) (ts : List Task) (i : ℕ) → is_normal (run_body b ts) i ≡ is_normal ts i
unfolding run_body reset_iteration
is_normal-run_body user ts i = refl
is_normal-run_body skipped ts i = refl
is_normal-run_body (first_task is) ts i =
    view-update_all true (λ t. not (is_completion t.task_type)) (set_status incomplete) (λ t. refl)
      is i ts
is_normal-run_body (last_task is) ts i =
    view-update_all true (λ t. not (is_completion t.task_type)) reset_iteration (λ t. refl) is i ts

-- A task that is not done stays so when its status is set back.
done-update :
    (i j : ℕ) (ts : List Task)
    → done ts i ≡ false
    → done (update i (set_status incomplete) ts) j ≡ done ts j
unfolding update
done-update i j [] h = refl
done-update zero zero (t ∷ ts) h = sym h
done-update zero (suc j) (t ∷ ts) h = refl
done-update (suc i) zero (t ∷ ts) h = refl
done-update (suc i) (suc j) (t ∷ ts) h = done-update i j ts h

done-update_all :
    (is : List ℕ) (j : ℕ) (ts : List Task)
    → All (λ i. done ts i ≡ false) is
    → done (update_all is (set_status incomplete) ts) j ≡ done ts j
unfolding update_all
done-update_all [] j ts h = refl
done-update_all (i ∷ is) j ts h =
    done-update_all is j (update i (set_status incomplete) ts)
      (All-map is (λ k e. done-update i k ts h.0 ∙ e) h.1)
    ∙ done-update i j ts h.0
  where
    All-map :
        (ks : List ℕ)
        → ((k : ℕ) → done ts k ≡ false → done (update i (set_status incomplete) ts) k ≡ false)
        → All (λ k. done ts k ≡ false) ks
        → All (λ k. done (update i (set_status incomplete) ts) k ≡ false) ks
    All-map [] f a = tt
    All-map (k ∷ ks) f a = (f k a.0, All-map ks f a.1)

-- The tasks that a function sets back.
abbrev pub set_back : Body → List ℕ
set_back (first_task is) = is
set_back b = []

pub done-run_body :
    (b : Body) (ts : List Task) (j : ℕ)
    → All (λ i. done ts i ≡ false) (set_back b)
    → done (run_body b ts) j ≡ done ts j
unfolding run_body reset_iteration
done-run_body user ts j h = refl
done-run_body skipped ts j h = refl
done-run_body (first_task is) ts j h = done-update_all is j ts h
done-run_body (last_task is) ts j h =
    view-update_all false (λ t. not (is_incomplete t.task_status)) reset_iteration (λ t. refl) is j
      ts

pub view-set {ℓ} :
    {A : Type ℓ} (d : A) (f : Task → A) (ts : List Task) (i j : ℕ) (t : Task)
    → i < length ts
    → view d f (set ts i t) j ≡ (if j == i then f t else view d f ts j)
view-set d f [] i j t h = absurd (omega arith)
view-set d f (u ∷ ts) zero zero t h = refl
view-set d f (u ∷ ts) zero (suc j) t h = let e : (suc j == 0) ≡ false = ground arith in rw e refl
view-set d f (u ∷ ts) (suc i) zero t h = let e : (0 == suc i) ≡ false = ground arith in rw e refl
view-set d f (u ∷ ts) (suc i) (suc j) t h =
    let e : (suc j == suc i) ≡ (j == i) = ground arith in rw e (view-set d f ts i j t (omega arith))

pub view-get {ℓ} :
    {A : Type ℓ} (d : A) (f : Task → A) (ts : List Task) (i : ℕ) (t : Task)
    → get_elem? ts i ≡ some t
    → view d f ts i ≡ f t
view-get d f [] i t h = cc
view-get d f (u ∷ ts) zero t h = let e : u ≡ t = cc in rw e refl
view-get d f (u ∷ ts) (suc i) t h = view-get d f ts i t h

found :
    (d : ℕ) (ts : List Task)
    → elim (get_elem? ts d) as (λ o. Bool) [
      | none ↦ false
      | some t ↦ not (is_incomplete t.task_status)
    ]
      ≡ done ts d
found d [] = refl
found zero (t ∷ ts) = refl
found (suc d) (t ∷ ts) = found d ts

-- All dependencies of a task are done.
abbrev pub all_done : List Task → List ℕ → Bool
all_done ts [] = true
all_done ts (d ∷ ds) = done ts d && all_done ts ds

pub ready_on-all_done : (ts : List Task) (ds : List ℕ) → ready_on ts ds ≡ all_done ts ds
unfolding ready_on
ready_on-all_done ts [] = refl
ready_on-all_done ts (d ∷ ds) =
    rw (ready_on-all_done ts ds) (ap (λ b. b && all_done ts ds) (found d ts))

pub get-in_range {ℓ} :
    {A : Type ℓ} (ts : List A) (i : ℕ) → i < length ts → (t : A) × (get_elem? ts i ≡ some t)
get-in_range [] i h = absurd (omega arith)
get-in_range (t ∷ ts) zero h = (t, refl)
get-in_range (t ∷ ts) (suc i) h = get-in_range ts i (omega arith)

-- A write that does not change what is read.
pub view-set_same {ℓ} :
    {A : Type ℓ} (d : A) (f : Task → A) (ts : List Task) (i j : ℕ) (t t' : Task)
    → get_elem? ts i ≡ some t
    → f t' ≡ f t
    → view d f (set ts i t') j ≡ view d f ts j
view-set_same d f [] i j t t' h e = refl
view-set_same d f (u ∷ ts) zero zero t t' h e = let same : u ≡ t = cc in rw same e
view-set_same d f (u ∷ ts) zero (suc j) t t' h e = refl
view-set_same d f (u ∷ ts) (suc i) zero t t' h e = refl
view-set_same d f (u ∷ ts) (suc i) (suc j) t t' h e = view-set_same d f ts i j t t' h e

pub view-append {ℓ} :
    {A : Type ℓ} (d : A) (f : Task → A) (ts : List Task) (t : Task) (j : ℕ)
    → view d f (ts ++ t ∷ []) j ≡ (if j == length ts then f t else view d f ts j)
view-append d f [] t zero = refl
view-append d f [] t (suc j) = let e : (suc j == 0) ≡ false = ground arith in rw e refl
view-append d f (u ∷ ts) t zero = let e : (0 == suc (length ts)) ≡ false = ground arith in rw e refl
view-append d f (u ∷ ts) t (suc j) =
    let e : (suc j == suc (length ts)) ≡ (j == length ts) = ground arith in
    rw e (view-append d f ts t j)
