-- ===== src/Examples/RegionAt.antt =====
-- A concrete region for the theorem on Execute of src/tasks/tasks.hpp.
use parthenon.Base.{
  ℕ, ◌⊎◌, inl, inr, Bool-cases, zero, suc, ◌<◌, true, false, some, List, [], ◌∷◌, length, get_elem?,
  ok, ◌≡◌, refl, sym, arith, All, count, contains, flag, ◌%◌, ◌==◌,
}
use parthenon.Tasks.Task.{complete, incomplete, normal, Task}
use parthenon.Tasks.Execute.{
  user, first_task, last_task, Edges, Execution, execute, check_task_returns,
}
use parthenon.Tasks.Views.{done, deps, is_normal, set_back}
use parthenon.Tasks.Region.{Descends, itself, later, is_launched, IsRegion, IsOrdered}
use parthenon.Tasks.Finish.{execute-ran}

abbrev task_after : List ℕ → Task
task_after ds = record {
  dependencies = ds;
  min_calls = 1;
  max_calls = 1;
  task_type = normal;
  num_calls = 0;
  task_status = incomplete;
}

-- The first and the last task of a list, and three tasks of which the last depends on the other two.
abbrev tasks : List Task
tasks =
    task_after []
    ∷ task_after []
    ∷ task_after (0 ∷ [])
    ∷ task_after (0 ∷ [])
    ∷ task_after (3 ∷ 2 ∷ [])
    ∷ []

abbrev edges : List ℕ → Edges
edges next = record { body = user; on_complete = next; on_incomplete = []; on_iterate = [] }

abbrev first : Edges
first = record {
  body = first_task (0 ∷ 1 ∷ 2 ∷ 3 ∷ 4 ∷ []);
  on_complete = 2 ∷ 3 ∷ [];
  on_incomplete = 0 ∷ [];
  on_iterate = [];
}

abbrev last : Edges
last = record { body = last_task []; on_complete = []; on_incomplete = 1 ∷ []; on_iterate = [] }

abbrev graph : List Edges
graph = first ∷ last ∷ edges (4 ∷ []) ∷ edges (4 ∷ []) ∷ edges [] ∷ []

abbrev started : List ℕ
started = 0 ∷ []

tasks_earlier : (i d : ℕ) → contains d (deps tasks i) ≡ true → d < i
tasks_earlier zero d h = absurd cc
tasks_earlier (suc zero) d h = absurd cc
tasks_earlier (suc (suc zero)) d h = ground arith
tasks_earlier (suc (suc (suc zero))) d h = ground arith
tasks_earlier (suc (suc (suc (suc zero)))) d h = ground arith
tasks_earlier (suc (suc (suc (suc (suc i))))) d h = absurd cc

-- The dependents of a task, checked at each of the five.
abbrev Mirrors : ℕ → List ℕ → ℕ → Type 0
Mirrors i next j = count j next ≡ flag (contains i (deps tasks j))

row :
    (i : ℕ) (next : List ℕ)
    → Mirrors i next 0 × Mirrors i next 1 × Mirrors i next 2 × Mirrors i next 3 × Mirrors i next 4
    → ((j : ℕ) → count (suc (suc (suc (suc (suc j))))) next ≡ 0)
    → (j : ℕ) → Mirrors i next j
row i next h far zero = h.0
row i next h far (suc zero) = h.1
row i next h far (suc (suc zero)) = h.2
row i next h far (suc (suc (suc zero))) = h.3
row i next h far (suc (suc (suc (suc zero)))) = h.4
row i next h far (suc (suc (suc (suc (suc j))))) = far j

tasks_dependents :
    (i : ℕ) (e : Edges) → get_elem? graph i ≡ some e → (j : ℕ) → Mirrors i e.on_complete j
tasks_dependents zero e h j =
    let same : first ≡ e = cc in
    rw (sym same) (row 0 (2 ∷ 3 ∷ []) (refl, refl, refl, refl, refl) (λ k. ground arith) j)
tasks_dependents (suc zero) e h j =
    let same : last ≡ e = cc in
    rw (sym same) (row 1 ([]) (refl, refl, refl, refl, refl) (λ k. ground arith) j)
tasks_dependents (suc (suc zero)) e h j =
    let same : edges (4 ∷ []) ≡ e = cc in
    rw (sym same) (row 2 (4 ∷ []) (refl, refl, refl, refl, refl) (λ k. ground arith) j)
tasks_dependents (suc (suc (suc zero))) e h j =
    let same : edges (4 ∷ []) ≡ e = cc in
    rw (sym same) (row 3 (4 ∷ []) (refl, refl, refl, refl, refl) (λ k. ground arith) j)
tasks_dependents (suc (suc (suc (suc zero)))) e h j =
    let same : edges [] ≡ e = cc in
    rw (sym same) (row 4 ([]) (refl, refl, refl, refl, refl) (λ k. ground arith) j)
tasks_dependents (suc (suc (suc (suc (suc i))))) e h j = absurd cc

tasks_sets_back :
    (i : ℕ) (e : Edges)
    → get_elem? graph i ≡ some e
    → All (λ j. Descends tasks i j ⊎ (is_launched tasks started j ≡ false)) (set_back e.body)
tasks_sets_back zero e h =
    let same : first ≡ e = cc in
    let two : Descends tasks 0 2 = later 0 0 2 refl (itself 0) in
    rw (sym same) (
      inl (itself 0),
      (inr refl, (inl two, (inl (later 0 0 3 refl (itself 0)), (inl (later 0 2 4 refl two), tt)))),
    )
tasks_sets_back (suc zero) e h = let same : last ≡ e = cc in rw (sym same) tt
tasks_sets_back (suc (suc zero)) e h = let same : edges (4 ∷ []) ≡ e = cc in rw (sym same) tt
tasks_sets_back (suc (suc (suc zero))) e h = let same : edges (4 ∷ []) ≡ e = cc in rw (sym same) tt
tasks_sets_back (suc (suc (suc (suc zero)))) e h = let same : edges [] ≡ e = cc in rw (sym same) tt
tasks_sets_back (suc (suc (suc (suc (suc i))))) e h = absurd cc

tasks_starts : (j : ℕ) → contains j started ≡ true → (deps tasks j ≡ []) × (j < length tasks)
tasks_starts zero h = (refl, omega arith)
tasks_starts (suc j) h = absurd (ground arith)

deps_launched : (i d : ℕ) → contains d (deps tasks i) ≡ true → is_launched tasks started d ≡ true
deps_launched zero d h = absurd cc
deps_launched (suc zero) d h = absurd cc
deps_launched (suc (suc zero)) d h = let same : d ≡ 0 = ground arith in rw same refl
deps_launched (suc (suc (suc zero))) d h = let same : d ≡ 0 = ground arith in rw same refl
deps_launched (suc (suc (suc (suc zero)))) d h = elim (Bool-cases (d == 3)) [
  | inl e ↦ let same : d ≡ 3 = ground arith in rw same refl
  | inr e ↦ let same : d ≡ 2 = ground arith in rw same refl
]
deps_launched (suc (suc (suc (suc (suc i))))) d h = absurd cc

tasks_fresh : (i : ℕ) → done tasks i ≡ false
tasks_fresh zero = refl
tasks_fresh (suc zero) = refl
tasks_fresh (suc (suc zero)) = refl
tasks_fresh (suc (suc (suc zero))) = refl
tasks_fresh (suc (suc (suc (suc zero)))) = refl
tasks_fresh (suc (suc (suc (suc (suc i))))) = refl

tasks_normal : (i : ℕ) → is_normal tasks i ≡ true
tasks_normal zero = refl
tasks_normal (suc zero) = refl
tasks_normal (suc (suc zero)) = refl
tasks_normal (suc (suc (suc zero))) = refl
tasks_normal (suc (suc (suc (suc zero)))) = refl
tasks_normal (suc (suc (suc (suc (suc i))))) = refl

region : IsRegion graph tasks started
region = record {
  same_length = refl;
  rank = λ i. i;
  earlier = tasks_earlier;
  dependents = tasks_dependents;
  fresh = tasks_fresh;
  normal = tasks_normal;
  starts = λ j. ground arith;
  starts_alone = tasks_starts;
  deps_launched = deps_launched;
  sets_back = tasks_sets_back;
}

-- The caller and the worker take turns.
execute-ran_example :
    (t : Execution) × (execute graph
        (λ before i. complete)
        6
        (λ n. n % 2 == 0)
        (record { tasks = tasks; startup = started; queue = []; ran = []; returns = [] })
      ≡ ok t)
    × (check_task_returns t.returns ≡ complete)
    × ((j : ℕ) → count j t.ran ≡ flag (is_launched tasks started j))
    × IsOrdered tasks t.ran
execute-ran_example =
    execute-ran graph (λ before i. complete) tasks started region (λ before i. refl) 6
      (λ n. n % 2 == 0) (omega arith)
