-- ===== src/Tasks/Region.antt =====
-- The regions of src/tasks/tasks.hpp that can be executed, and what holds while one runs.
use parthenon.Base.{
  ℕ, ◌⊎◌, zero, suc, ◌+◌, ◌<◌, ◌≤◌, ltb, ◌==◌, ◌&&◌, ◌||◌, if◌then◌else◌, Bool, true, false, none,
  some, List, [], ◌∷◌, get_elem?, length, ◌≡◌, inl, inr, refl, sym, arith, All, Bool-cases,
  Option-cases, count, contains, flag,
}
use parthenon.Tasks.Task.{complete, Task, ready}
use parthenon.Tasks.Execute.{Edges, Execution, ready_ones, check_task_returns}
use parthenon.Tasks.Views.{
  done, deps, is_normal, set_back, all_done, ready_on-all_done, view-get, get-in_range,
}

-- A task that depends on another, directly or through others.
pub data Descends (ts : List Task) : ℕ → ℕ → Type 0 where
  itself : (i : ℕ) → Descends ts i i
  later : (i d j : ℕ) → contains d (deps ts j) ≡ true → Descends ts i d → Descends ts i j

abbrev pub is_some_task : List ℕ → Bool
is_some_task [] = false
is_some_task (d ∷ ds) = true

-- A task that is meant to run: a first task, or one that depends on something.
abbrev pub is_launched : List Task → List ℕ → ℕ → Bool
is_launched ts startup j = contains j startup || is_some_task (deps ts j)

-- A graph without cycles or iterations, none of whose tasks has run.
pub record IsRegion (graph : List Edges) (ts : List Task) (startup : List ℕ) : Type 0 where
  pub same_length : length graph ≡ length ts
  pub rank : ℕ → ℕ
  pub earlier : (i d : ℕ) → contains d (deps ts i) ≡ true → rank d < rank i
  -- A task is among the dependents of just those that it depends on, once.
  pub dependents :
      (i : ℕ) (e : Edges)
      → get_elem? graph i ≡ some e
      → (j : ℕ) → count j e.on_complete ≡ flag (contains i (deps ts j))
  pub fresh : (i : ℕ) → done ts i ≡ false
  pub normal : (i : ℕ) → is_normal ts i ≡ true
  pub starts : (j : ℕ) → count j startup ≡ flag (contains j startup)
  pub starts_alone : (j : ℕ) → contains j startup ≡ true → (deps ts j ≡ []) × (j < length ts)
  pub deps_launched : (i d : ℕ) → contains d (deps ts i) ≡ true → is_launched ts startup d ≡ true
  -- The first task of a list sets back only tasks that depend on it and tasks that do not run.
  pub sets_back :
      (i : ℕ) (e : Edges)
      → get_elem? graph i ≡ some e
      → All (λ j. Descends ts i j ⊎ (is_launched ts startup j ≡ false)) (set_back e.body)

-- Every task has run after those that it depends on.
abbrev pub IsOrdered : List Task → List ℕ → Type 0
IsOrdered ts [] = Unit
IsOrdered ts (i ∷ is) =
    ((d : ℕ) → contains d (deps ts i) ≡ true → contains d is ≡ true) × IsOrdered ts is

-- What holds after every turn. A task that can run is waiting to run, or has run, just once.
pub record IsRunning (ts : List Task) (startup : List ℕ) (s : Execution) : Type 0 where
  pub same_length : length s.tasks ≡ length ts
  pub same_deps : (i : ℕ) → deps s.tasks i ≡ deps ts i
  pub normal : (i : ℕ) → is_normal s.tasks i ≡ true
  pub once :
      (j : ℕ)
      → count j s.queue + count j s.startup + flag (done s.tasks j)
        ≡ flag (is_launched ts startup j && all_done s.tasks (deps ts j))
  pub ran_once : (j : ℕ) → count j s.ran ≡ flag (done s.tasks j)
  pub ordered : IsOrdered ts s.ran
  pub passed : check_task_returns s.returns ≡ complete

get-near : (ts : List Task) (i : ℕ) (t : Task) → get_elem? ts i ≡ some t → ltb i (length ts) ≡ true
get-near [] i t e = absurd cc
get-near (u ∷ ts) zero t e = ground arith
get-near (u ∷ ts) (suc i) t e = ground (arith, get-near ts i t e)

pub deps_beyond : (ts : List Task) (i : ℕ) → length ts ≤ i → deps ts i ≡ []
deps_beyond [] i h = refl
deps_beyond (t ∷ ts) zero h = absurd (omega arith)
deps_beyond (t ∷ ts) (suc i) h = deps_beyond ts i (omega arith)

-- What ready_ones does with one task.
step_ready :
    (ts : List Task) (i : ℕ) (rest : List ℕ)
    → elim (get_elem? ts i) as (λ o. List ℕ) [
      | none ↦ rest
      | some t ↦ if ready ts t then i ∷ rest else rest
    ]
      ≡ (if ltb i (length ts) && all_done ts (deps ts i) then i ∷ rest else rest)
unfolding ready
step_ready ts i rest = elim (Option-cases (get_elem? ts i)) [
  | inl e ↦
      let far : ltb i (length ts) ≡ false = ground (arith, get-in_range ts i) in rw (e, far) refl
  | inr (t, e) ↦
      let near : ltb i (length ts) ≡ true = get-near ts i t e in
      let own : t.dependencies ≡ deps ts i = sym (view-get [] (λ u. u.dependencies) ts i t e) in
      rw (e, near, ready_on-all_done ts t.dependencies, own) refl
]

pub count-ready_ones :
    (ts : List Task) (is : List ℕ) (j : ℕ)
    → count j (ready_ones ts is)
      ≡ (if ltb j (length ts) && all_done ts (deps ts j) then count j is else 0)
unfolding ready_ones
count-ready_ones ts [] j = ground arith
count-ready_ones ts (i ∷ is) j =
    let rest = count-ready_ones ts is j in
    elim (Bool-cases (j == i)) [
      | inl e ↦
          let same : j ≡ i = ground arith in
          rw (step_ready ts i (ready_ones ts is), sym same) (ground (arith, rest))
      | inr e ↦ rw (step_ready ts i (ready_ones ts is)) (ground (arith, rest))
    ]

pub all_done-contains :
    (ts : List Task) (ds : List ℕ) (d : ℕ)
    → all_done ts ds ≡ true
    → contains d ds ≡ true
    → done ts d ≡ true
all_done-contains ts [] d h k = cc
all_done-contains ts (e ∷ ds) d h k = elim (Bool-cases (d == e)) [
  | inl q ↦ let same : d ≡ e = ground arith in rw same (ground arith)
  | inr q ↦ all_done-contains ts ds d (ground arith) (ground arith)
]

-- All that are done after `i` too is done.
pub all_done-step :
    (ts ts' : List Task) (i : ℕ)
    → ((k : ℕ) → done ts' k ≡ ((k == i) || done ts k))
    → (ds : List ℕ) → all_done ts' ds ≡ (if contains i ds then all_done ts' ds else all_done ts ds)
all_done-step ts ts' i h [] = refl
all_done-step ts ts' i h (d ∷ ds) = ground (arith, h d, all_done-step ts ts' i h ds)

pub all_done_mono :
    (ts ts' : List Task) (i : ℕ)
    → ((k : ℕ) → done ts' k ≡ ((k == i) || done ts k))
    → (ds : List ℕ) → all_done ts ds ≡ true
    → all_done ts' ds ≡ true
all_done_mono ts ts' i h [] e = refl
all_done_mono ts ts' i h (d ∷ ds) e = ground (arith, h d, all_done_mono ts ts' i h ds)

-- What is done has its dependencies done, so that what depends on a task that is not done is not done.
pub undone-Descends :
    (ts : List Task) (startup : List ℕ) (s : Execution)
    → IsRunning ts startup s
    → (i j : ℕ) → Descends ts i j
    → done s.tasks i ≡ false
    → done s.tasks j ≡ false
undone-Descends ts startup s h _ _ (itself i) e = e
undone-Descends ts startup s h _ _ (later i d j c r) e =
    let before = undone-Descends ts startup s h i d r e in
    ground (arith, before, h.once j, all_done-contains s.tasks (deps ts j) d)
