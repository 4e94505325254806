-- ===== src/Tasks/Execute.antt =====
-- The execution of a task region: Execute and ProcessTask of src/tasks/tasks.hpp on the pool of
-- src/tasks/thread_pool.hpp, which has one worker. The worker takes the tasks from the front of the queue while
-- the caller is still putting the first tasks behind it; `schedule` says who goes next. The graph is the one
-- that the lists have built, and `returned` is what the function of a user's task returns.
use parthenon.Base.{
  ℕ, zero, suc, if◌then◌else◌, Bool, true, false, Option, none, some, List, [], ◌∷◌, ◌++◌,
  get_elem?, set, Result, ok, err, ◌>>=◌,
}
use parthenon.Tasks.Task.{
  TaskStatus, complete, incomplete, iterate, fail, Task, call, ready, reset_iteration,
}

-- What the function of a task does besides what it returns.
pub data Body : Type 0 where
  user : Body
  -- The first task of a list sets the status of all its tasks back.
  first_task : List ℕ → Body
  -- The last task of a list sets the iterations of its completion tasks back.
  last_task : List ℕ → Body
  -- A task that only the first list of a region runs, in another list.
  skipped : Body

-- The function of a task, and the tasks that may run after it, for each status it returns.
pub record Edges : Type 0 where
  pub body : Body
  pub on_complete : List ℕ
  pub on_incomplete : List ℕ
  pub on_iterate : List ℕ

-- The array of dependents has no entry for a failure.
unfoldable pub get_dependent : Edges → TaskStatus → Option (List ℕ)
get_dependent e complete = some e.on_complete
get_dependent e incomplete = some e.on_incomplete
get_dependent e iterate = some e.on_iterate
get_dependent e fail = none

abbrev pub set_status : TaskStatus → Task → Task
set_status s t = record t { task_status = s }

unfoldable pub update : ℕ → (Task → Task) → List Task → List Task
update i f [] = []
update zero f (t ∷ ts) = f t ∷ ts
update (suc i) f (t ∷ ts) = t ∷ update i f ts

unfoldable pub update_all : List ℕ → (Task → Task) → List Task → List Task
update_all [] f ts = ts
update_all (i ∷ is) f ts = update_all is f (update i f ts)

unfoldable pub run_body : Body → List Task → List Task
run_body user ts = ts
run_body (first_task is) ts = update_all is (set_status incomplete) ts
run_body (last_task is) ts = update_all is reset_iteration ts
run_body skipped ts = ts

abbrev pub return_of : Body → TaskStatus → TaskStatus
return_of user s = s
return_of (first_task is) s = complete
return_of (last_task is) s = complete
return_of skipped s = complete

pub data Error : Type 0 where
  no_task : Error
  no_dependents : Error
  out_of_fuel : Error

pub record Execution : Type 0 where
  pub tasks : List Task
  -- The first tasks that the caller has not yet put on the queue.
  pub startup : List ℕ
  pub queue : List ℕ
  -- The tasks that have run and what they have returned, the last one first.
  pub ran : List ℕ
  pub returns : List TaskStatus

-- The tasks of a list whose dependencies are not incomplete.
unfoldable pub ready_ones : List Task → List ℕ → List ℕ
ready_ones ts [] = []
ready_ones ts (i ∷ is) =
    let rest = ready_ones ts is in
    elim (get_elem? ts i) [ none ↦ rest | some t ↦ if ready ts t then i ∷ rest else rest ]

-- check_task_returns of the pool.
unfoldable pub check_task_returns : List TaskStatus → TaskStatus
check_task_returns [] = complete
check_task_returns (fail ∷ ss) = fail
check_task_returns (s ∷ ss) = check_task_returns ss

module _ (graph : List Edges) (returned : List ℕ → ℕ → TaskStatus) where
  -- ProcessTask of a task that has been taken from the queue.
  unfoldable pub process : ℕ → Execution → Result Error Execution
  process i s = elim (get_elem? graph i) [
    | none ↦ err no_task
    | some e ↦
        let ts = run_body e.body s.tasks in
        elim (get_elem? ts i) [
          | none ↦ err no_task
          | some t ↦
              let (t', status) = call (return_of e.body (returned s.ran i)) t in
              elim (get_dependent e status) [
                | none ↦ err no_dependents
                | some next ↦ ok (record s {
                  tasks = set ts i t';
                  queue = s.queue ++ ready_ones (set ts i t') next;
                  ran = i ∷ s.ran;
                  returns = status ∷ s.returns;
                })
              ]
        ]
  ]

  -- The caller's turn, where it has a task left, or the worker's.
  unfoldable pub turn : Bool → Execution → Result Error Execution
  turn caller s = elim s.startup [
    | [] ↦ elim s.queue [ [] ↦ ok s | i ∷ is ↦ process i (record s { queue = is }) ]
    | j ∷ js ↦ elim s.queue [
      | [] ↦ ok (record s { startup = js; queue = j ∷ [] })
      | i ∷ is ↦
          if caller
          then ok (record s { startup = js; queue = s.queue ++ j ∷ [] })
          else process i (record s { queue = is })
    ]
  ]

  unfoldable pub is_finished : Execution → Bool
  is_finished s = elim s.startup [
    | [] ↦ elim s.queue [ [] ↦ true | i ∷ is ↦ false ]
    | j ∷ js ↦ false
  ]

  unfoldable pub execute : ℕ → (ℕ → Bool) → Execution → Result Error Execution
  execute zero schedule s = if is_finished s then ok s else err out_of_fuel
  execute (suc fuel) schedule s = elim (is_finished s) [
    | true ↦ ok s
    | false ↦ turn (schedule fuel) s >>= execute fuel schedule
  ]
