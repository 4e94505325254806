-- ===== src/Tasks/Step.antt =====
-- What ProcessTask of src/tasks/tasks.hpp does, where all functions complete.
use parthenon.Base.{
  ℕ, ◌⊎◌, zero, suc, ◌+◌, ◌<◌, ◌≤◌, ltb, leb, ◌==◌, not, ◌&&◌, ◌||◌, if◌then◌else◌, true, false,
  some, List, [], ◌∷◌, ◌++◌, get_elem?, set, length, ok, ◌≡◌, inl, inr, refl, sym, ap, ◌∙◌, arith,
  All, Bool-cases, count, count-append, contains, flag, length-set, count-contains,
}
use parthenon.Tasks.Task.{TaskStatus, complete, is_incomplete, is_completion, Task, call}
use parthenon.Tasks.Execute.{
  Body, user, skipped, first_task, last_task, Edges, get_dependent, run_body, return_of, Execution,
  ready_ones, process, check_task_returns,
}
use parthenon.Tasks.Views.{
  done, deps, view-get, view-set, view-set_same, get-in_range, set_back, all_done, length-run_body,
  deps-run_body, is_normal-run_body, done-run_body,
}
use parthenon.Tasks.Region.{
  Descends, is_some_task, is_launched, IsRegion, IsRunning, deps_beyond, count-ready_ones,
  all_done-contains, all_done-step, all_done_mono, undone-Descends,
}

call-normal :
    (t : Task)
    → is_completion t.task_type ≡ false
    → call complete t ≡ (record t { task_status = complete }, complete)
unfolding call
call-normal t h = rw h refl

return_of-complete : (b : Body) (s : TaskStatus) → s ≡ complete → return_of b s ≡ complete
return_of-complete user s h = h
return_of-complete (first_task is) s h = refl
return_of-complete skipped s h = refl
return_of-complete (last_task is) s h = refl

-- The number of tasks that are not done.
abbrev pub undone : ℕ → List Task → ℕ
undone zero ts = 0
undone (suc n) ts = flag (not (done ts n)) + undone n ts

pub undone-bound : (n : ℕ) (ts : List Task) → undone n ts ≤ n
undone-bound zero ts = omega arith
undone-bound (suc n) ts = ground (arith, undone-bound n ts)

undone-same :
    (n : ℕ) (ts ts' : List Task) (i : ℕ)
    → ((k : ℕ) → done ts' k ≡ ((k == i) || done ts k))
    → n ≤ i
    → undone n ts' ≡ undone n ts
undone-same zero ts ts' i h le = refl
undone-same (suc n) ts ts' i h le = ground (arith, h n, undone-same n ts ts' i h)

undone-less :
    (n : ℕ) (ts ts' : List Task) (i : ℕ)
    → ((k : ℕ) → done ts' k ≡ ((k == i) || done ts k))
    → i < n
    → done ts i ≡ false
    → suc (undone n ts') ≡ undone n ts
undone-less zero ts ts' i h lt e = absurd (omega arith)
undone-less (suc n) ts ts' i h lt e =
    ground (arith, h n, undone-less n ts ts' i h, undone-same n ts ts' i h)

contains-is_some_task : (d : ℕ) (ds : List ℕ) → contains d ds ≡ true → is_some_task ds ≡ true
contains-is_some_task d [] h = h
contains-is_some_task d (e ∷ ds) h = refl

module _ (graph : List Edges) (returned : List ℕ → ℕ → TaskStatus) (ts : List Task)
    (startup : List ℕ) (region : IsRegion graph ts startup)
    (completes : (before : List ℕ) (i : ℕ) → returned before i ≡ complete) where
  pub launched_in : (j : ℕ) → is_launched ts startup j ≡ true → j < length ts
  launched_in j h = elim (Bool-cases (contains j startup)) [
    | inl e ↦ (region.starts_alone j e).1
    | inr e ↦ elim (Bool-cases (leb (length ts) j)) [
      | inl far ↦
          let none_such : is_some_task (deps ts j) ≡ false =
            rw (deps_beyond ts j (ground arith)) refl in
          absurd (ground arith)
      | inr near ↦ ground arith
    ]
  ]

  -- The store after a task has run.
  abbrev after : Edges → ℕ → Task → Execution → List Task
  after e i t s = set (run_body e.body s.tasks) i (record t { task_status = complete })

  abbrev stepped : Edges → ℕ → Task → Execution → Execution
  stepped e i t s = record s {
    tasks = after e i t s;
    queue = s.queue ++ ready_ones (after e i t s) e.on_complete;
    ran = i ∷ s.ran;
    returns = complete ∷ s.returns;
  }

  process-stepped :
      (i : ℕ) (s : Execution) (e : Edges) (t : Task)
      → get_elem? graph i ≡ some e
      → get_elem? (run_body e.body s.tasks) i ≡ some t
      → is_completion t.task_type ≡ false
      → process graph returned i s ≡ ok (stepped e i t s)
  unfolding process get_dependent
  process-stepped i s e t he ht hn =
      let result : call (return_of e.body (returned s.ran i)) t
          ≡ (record t { task_status = complete }, complete) =
        rw (return_of-complete e.body (returned s.ran i) (completes s.ran i)) (call-normal t hn) in
      rw (process, he, ht, result)
        (ap
          (λ (r : Task × TaskStatus). ok (record s {
            tasks = set (run_body e.body s.tasks) i r.0;
            queue = s.queue ++ ready_ones (set (run_body e.body s.tasks) i r.0) e.on_complete;
            ran = i ∷ s.ran;
            returns = r.1 ∷ s.returns;
          }))
          result)

  -- What is known of the task at the front of the queue.
  module _ (i : ℕ) (s : Execution)
      (h : IsRunning ts startup (record s { queue = i ∷ s.queue })) where
    front_once :
        (done s.tasks i ≡ false)
        × (is_launched ts startup i ≡ true)
        × (all_done s.tasks (deps ts i) ≡ true)
    front_once = let k = h.once i in (ground arith, ground arith, ground arith)

    sets_back_undone :
        (e : Edges)
        → get_elem? graph i ≡ some e
        → All (λ j. done s.tasks j ≡ false) (set_back e.body)
    sets_back_undone e he = go (set_back e.body) (region.sets_back i e he)
      where
        unlaunched : (j : ℕ) → is_launched ts startup j ≡ false → done s.tasks j ≡ false
        unlaunched j l = ground (arith, h.once j)

        go :
            (js : List ℕ)
            → All (λ j. Descends ts i j ⊎ (is_launched ts startup j ≡ false)) js
            → All (λ j. done s.tasks j ≡ false) js
        go [] a = tt
        go (j ∷ js) a = (
          elim a.0 [
            | inl d ↦
                undone-Descends ts startup (record s { queue = i ∷ s.queue }) h i j d front_once.0
            | inr l ↦ unlaunched j l
          ],
          go js a.1,
        )

    after-done :
        (e : Edges) (t : Task)
        → get_elem? graph i ≡ some e
        → (k : ℕ) → done (after e i t s) k ≡ ((k == i) || done s.tasks k)
    after-done e t he k =
        let lt : i < length (run_body e.body s.tasks) =
          omega
            (arith, length-run_body e.body s.tasks, h.same_length, launched_in i front_once.1) in
        let new =
          view-set false (λ u. not (is_incomplete u.task_status)) (run_body e.body s.tasks) i k
            (record t { task_status = complete }) lt in
        let old = done-run_body e.body s.tasks k (sets_back_undone e he) in
        new ∙ rw old (ground arith)

    -- A task that can run after the turn is waiting or has run, once.
    stepped-once :
        (e : Edges) (t : Task) (now : List Task)
        → get_elem? graph i ≡ some e
        → ((k : ℕ) → done now k ≡ ((k == i) || done s.tasks k))
        → ((k : ℕ) → deps now k ≡ deps ts k)
        → length now ≡ length ts
        → (j : ℕ)
        → count j (s.queue ++ ready_ones now e.on_complete) + count j s.startup + flag (done now j)
          ≡ flag (is_launched ts startup j && all_done now (deps ts j))
    stepped-once e t now he new same len j =
        let waiting = count-append j s.queue (ready_ones now e.on_complete) in
        let woken : count j (ready_ones now e.on_complete)
            ≡ (if ltb j (length ts) && all_done now (deps ts j) then count j e.on_complete else 0) =
          rw (sym len, sym (same j)) (count-ready_ones now e.on_complete j) in
        let edge = region.dependents i e he j in
        let others = all_done-step s.tasks now i new (deps ts j) in
        let blocked = all_done-contains s.tasks (deps ts j) i in
        let some_dep = contains-is_some_task i (deps ts j) in
        let near = launched_in j in
        let (not_done, start, before) = front_once in
        elim (Bool-cases (j == i)) [
          | inl eq ↦
              let same_task : j ≡ i = ground arith in
              let kept = all_done_mono s.tasks now i new (deps ts i) before in
              let alone : contains i (deps ts j) ≡ false =
                rw same_task (ground (arith, all_done-contains s.tasks (deps ts i) i before)) in
              let kept' : all_done now (deps ts j) ≡ true = rw same_task kept in
              let start' : is_launched ts startup j ≡ true = rw same_task start in
              let before' : all_done s.tasks (deps ts j) ≡ true = rw same_task before in
              let undone' : done s.tasks j ≡ false = rw same_task not_done in
              let k = h.once j in ground (arith, waiting, woken, edge, new j)
          | inr ne ↦
              let k = h.once j in
              ground (arith, waiting, woken, edge, others, blocked, some_dep, near, new j)
        ]

    stepped-IsRunning :
        (e : Edges) (t : Task)
        → get_elem? graph i ≡ some e
        → get_elem? (run_body e.body s.tasks) i ≡ some t
        → IsRunning ts startup (stepped e i t s)
    unfolding check_task_returns
    stepped-IsRunning e t he ht =
        let t' : Task = record t { task_status = complete } in
        let now = after-done e t he in
        let (not_done, start, before) = front_once in
        record {
          same_length =
              length-set (run_body e.body s.tasks) i t'
              ∙ length-run_body e.body s.tasks
              ∙ h.same_length;
          same_deps = λ k.
              view-set_same [] (λ u. u.dependencies) (run_body e.body s.tasks) i k t t' ht refl
              ∙ deps-run_body e.body s.tasks k
              ∙ h.same_deps k;
          normal = λ k.
              view-set_same true (λ u. not (is_completion u.task_type)) (run_body e.body s.tasks) i
                k t t' ht refl
              ∙ is_normal-run_body e.body s.tasks k
              ∙ h.normal k;
          once = λ j.
              stepped-once e t (after e i t s) he now
                (λ k.
                  view-set_same [] (λ u. u.dependencies) (run_body e.body s.tasks) i k t t' ht refl
                  ∙ deps-run_body e.body s.tasks k
                  ∙ h.same_deps k)
                (length-set (run_body e.body s.tasks) i t'
                  ∙ length-run_body e.body s.tasks
                  ∙ h.same_length)
                j;
          ran_once = λ j. ground (arith, h.ran_once j, now j, not_done);
          ordered = (
            λ d c.
                count-contains d s.ran
                  (ground (arith, h.ran_once d, all_done-contains s.tasks (deps ts i) d)),
            h.ordered,
          );
          passed = h.passed;
        }

    pub process-IsRunning :
        (t : Execution) × (process graph returned i s ≡ ok t)
        × IsRunning ts startup t
        × (t.startup ≡ s.startup)
        × (suc (undone (length ts) t.tasks) ≡ undone (length ts) s.tasks)
    process-IsRunning =
        let lt = launched_in i front_once.1 in
        let (e, he) = get-in_range graph i (omega (arith, region.same_length)) in
        let (t, ht) =
          get-in_range (run_body e.body s.tasks) i
            (omega (arith, length-run_body e.body s.tasks, h.same_length)) in
        let normal : is_completion t.task_type ≡ false = ground (
          arith,
          view-get true (λ u. not (is_completion u.task_type)) (run_body e.body s.tasks) i t ht,
          is_normal-run_body e.body s.tasks i,
          h.normal i,
        ) in
        (
          stepped e i t s,
          process-stepped i s e t he ht normal,
          stepped-IsRunning e t he ht,
          refl,
          undone-less (length ts) s.tasks (after e i t s) i (after-done e t he) lt front_once.0,
        )
