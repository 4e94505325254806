-- ===== src/Tasks/Finish.antt =====
-- Every task of a region of src/tasks/tasks.hpp runs once, whoever goes next.
use parthenon.Base.{
  ℕ, zero, suc, ◌+◌, ◌<◌, ◌≤◌, ◌==◌, ◌&&◌, Bool, true, false, List, [], ◌∷◌, ◌++◌, length, ok, ◌≡◌,
  ◌≢◌, inl, inr, refl, ap, subst, arith, Bool-cases, count, count-append, contains, flag,
}
use parthenon.Tasks.Task.{TaskStatus, complete, Task}
use parthenon.Tasks.Execute.{Edges, Execution, turn, is_finished, execute, check_task_returns}
use parthenon.Tasks.Views.{done, deps, all_done}
use parthenon.Tasks.Region.{is_some_task, is_launched, IsRegion, IsOrdered, IsRunning}
use parthenon.Tasks.Step.{undone, undone-bound, process-IsRunning}

module _ (graph : List Edges) (returned : List ℕ → ℕ → TaskStatus) (ts : List Task)
    (startup : List ℕ) (region : IsRegion graph ts startup)
    (completes : (before : List ℕ) (i : ℕ) → returned before i ≡ complete) where
  abbrev left : Execution → ℕ
  left s = length s.startup + undone (length ts) s.tasks

  abbrev Turned : Execution → Bool → Type 0
  Turned s caller =
      (t : Execution) × (turn graph returned caller s ≡ ok t)
      × IsRunning ts startup t
      × (suc (left t) ≡ left s)

  -- The caller puts a first task on the queue.
  enqueued-IsRunning :
      (s : Execution) (j : ℕ) (js : List ℕ)
      → IsRunning ts startup s
      → s.startup ≡ j ∷ js
      → IsRunning ts startup (record s { startup = js; queue = s.queue ++ j ∷ [] })
  enqueued-IsRunning s j js h e = record {
    same_length = h.same_length;
    same_deps = h.same_deps;
    normal = h.normal;
    once = λ k.
        let c : count k s.startup ≡ flag (k == j) + count k js = ap (count k) e in
        omega (arith, h.once k, count-append k s.queue (j ∷ []));
    ran_once = h.ran_once;
    ordered = h.ordered;
    passed = h.passed;
  }

  with_queue :
      (s : Execution) (q : List ℕ)
      → s.queue ≡ q
      → IsRunning ts startup s
      → IsRunning ts startup (record s { queue = q })
  with_queue s q e h = subst (λ l. IsRunning ts startup (record s { queue = l })) e h

  finished-ne :
      (s : Execution) → s.startup ≡ [] → s.queue ≡ [] → is_finished graph returned s ≢ false
  unfolding is_finished
  finished-ne s ep eq f = absurd cc

  turn-IsRunning :
      (caller : Bool) (p q : List ℕ) (s : Execution)
      → s.startup ≡ p
      → s.queue ≡ q
      → is_finished graph returned s ≡ false
      → IsRunning ts startup s
      → Turned s caller
  unfolding turn is_finished
  turn-IsRunning caller [] [] s ep eq f h = absurd (finished-ne s ep eq f)
  turn-IsRunning caller [] (i ∷ q) s ep eq f h =
      let (t, et, r, st, less) =
        process-IsRunning graph returned ts startup region completes i (record s { queue = q })
          (with_queue s (i ∷ q) eq h) in
      (t, rw (turn, ep, eq) et, r, omega (arith, less, ap (λ (l : List ℕ). length l) st))
  turn-IsRunning caller (j ∷ js) [] s ep eq f h = (
    record s { startup = js; queue = j ∷ [] },
    rw (turn, ep, eq) refl,
    subst (λ l. IsRunning ts startup (record s { startup = js; queue = l ++ j ∷ [] })) eq
        (enqueued-IsRunning s j js h ep),
    omega (arith, ap (λ (l : List ℕ). length l) ep),
  )
  turn-IsRunning true (j ∷ js) (i ∷ q) s ep eq f h = (
    record s { startup = js; queue = (i ∷ q) ++ j ∷ [] },
    rw (turn, ep, eq) (ap (λ (l : List ℕ). ok (record s { startup = js; queue = l ++ j ∷ [] })) eq),
    subst (λ l. IsRunning ts startup (record s { startup = js; queue = l ++ j ∷ [] })) eq
        (enqueued-IsRunning s j js h ep),
    omega (arith, ap (λ (l : List ℕ). length l) ep),
  )
  turn-IsRunning false (j ∷ js) (i ∷ q) s ep eq f h =
      let (t, et, r, st, less) =
        process-IsRunning graph returned ts startup region completes i (record s { queue = q })
          (with_queue s (i ∷ q) eq h) in
      (t, rw (turn, ep, eq) et, r, omega (arith, less, ap (λ (l : List ℕ). length l) st))

  execute-IsRunning :
      (fuel : ℕ) (schedule : ℕ → Bool) (s : Execution)
      → IsRunning ts startup s
      → left s ≤ fuel
      → (t : Execution) × (execute graph returned fuel schedule s ≡ ok t)
        × IsRunning ts startup t
        × (is_finished graph returned t ≡ true)
  unfolding execute
  execute-IsRunning zero schedule s h le = elim (Bool-cases (is_finished graph returned s)) [
    | inl f ↦ (s, rw (execute, f) refl, h, f)
    | inr f ↦ absurd (omega (arith, (turn-IsRunning true s.startup s.queue s refl refl f h).3))
  ]
  execute-IsRunning (suc fuel) schedule s h le = elim (Bool-cases (is_finished graph returned s)) [
    | inl f ↦ (s, rw (execute, f) refl, h, f)
    | inr f ↦
        let (t, et, r, less) = turn-IsRunning (schedule fuel) s.startup s.queue s refl refl f h in
        let (u, eu, run, last) = execute-IsRunning fuel schedule t r (omega (arith, less)) in
        (u, rw (execute, f, et) eu, run, last)
  ]

  earlier_done :
      (now : List Task) (ds : List ℕ)
      → ((d : ℕ) → contains d ds ≡ true → done now d ≡ true)
      → all_done now ds ≡ true
  earlier_done now [] h = refl
  earlier_done now (d ∷ ds) h = ground (arith, h d, earlier_done now ds (λ e c. h e (ground arith)))

  none_left :
      (p q : List ℕ) (s : Execution)
      → s.startup ≡ p
      → s.queue ≡ q
      → is_finished graph returned s ≡ true
      → (j : ℕ) → count j s.queue + count j s.startup ≡ 0
  unfolding is_finished
  none_left [] [] s ep eq f j = rw (ep, eq) (omega arith)
  none_left [] (i ∷ q) s ep eq f j = absurd cc
  none_left (i ∷ p) q s ep eq f j = absurd cc

  -- A task that is meant to run has run when no task is left, since those that it depends on have.
  all_launched_done :
      (s : Execution)
      → IsRunning ts startup s
      → is_finished graph returned s ≡ true
      → (bound j : ℕ) → region.rank j < bound
      → is_launched ts startup j ≡ true
      → done s.tasks j ≡ true
  all_launched_done s h f zero j lt l = absurd (omega arith)
  all_launched_done s h f (suc bound) j lt l =
      let ready = earlier_done s.tasks (deps ts j) (λ d c.
        all_launched_done s h f bound d (omega (arith, region.earlier j d c))
          (region.deps_launched j d c)) in
      ground (arith, ready, h.once j, none_left s.startup s.queue s refl refl f j)

  -- The region before it runs.
  abbrev start : Execution
  start = record { tasks = ts; startup = startup; queue = []; ran = []; returns = [] }

  start-once :
      (j : ℕ)
      → 0 + count j startup + flag (done ts j)
        ≡ flag (is_launched ts startup j && all_done ts (deps ts j))
  start-once j = ground (arith, region.starts j, region.fresh j, alone j, none_done (deps ts j))
    where
      alone :
          (j : ℕ)
          → contains j startup ≡ true
          → (is_some_task (deps ts j) ≡ false) × (all_done ts (deps ts j) ≡ true)
      alone j c = let e = (region.starts_alone j c).0 in (rw e refl, rw e refl)

      none_done : (ds : List ℕ) → is_some_task ds ≡ true → all_done ts ds ≡ false
      none_done [] h = absurd cc
      none_done (d ∷ ds) h = ground (arith, region.fresh d)

  start-IsRunning : IsRunning ts startup start
  unfolding check_task_returns
  start-IsRunning = record {
    same_length = refl;
    same_deps = λ i. refl;
    normal = region.normal;
    once = λ j. start-once j;
    ran_once = λ j. ground (arith, region.fresh j);
    ordered = tt;
    passed = refl;
  }

  -- For a region none of whose tasks has run, whose graph has no cycles and no completion tasks,
  -- whose dependents are just the dependencies read backwards, whose first tasks depend on nothing
  -- and stand among the first tasks once, in which each task that another depends on is a first
  -- task or depends on something itself, in which the first task of a list sets back only itself,
  -- tasks that depend on it and tasks that are neither first tasks nor depend on anything, and
  -- whose functions all complete, with fuel for one turn per first task and per task, and however
  -- the turns of the caller and of the worker fall: the execution ends without an error and with
  -- the status complete, every task that is a first task or depends on something has run exactly
  -- once and no other task has run, and each has run after all its dependencies.
  pub execute-ran :
      (fuel : ℕ) (schedule : ℕ → Bool)
      → length startup + length ts ≤ fuel
      → (t : Execution) × (execute graph returned fuel schedule start ≡ ok t)
        × (check_task_returns t.returns ≡ complete)
        × ((j : ℕ) → count j t.ran ≡ flag (is_launched ts startup j))
        × IsOrdered ts t.ran
  execute-ran fuel schedule le =
      let (t, et, r, f) =
        execute-IsRunning fuel schedule start start-IsRunning
          (omega (arith, undone-bound (length ts) ts)) in
      (
        t,
        et,
        r.passed,
        λ j.
            ground (arith, r.ran_once j, r.once j, all_launched_done t r f (suc (region.rank j)) j),
        r.ordered,
      )
