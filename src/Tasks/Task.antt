-- ===== src/Tasks/Task.antt =====
-- TaskStatus, TaskQualifier, TaskID and Task of src/tasks/tasks.hpp. A pointer to a task is the task's
-- position in the store of tasks; what a task's function returns is an input of the call.
use parthenon.Base.{
  ℕ, ◌+◌, ltb, ◌==◌, not, ◌&&◌, if◌then◌else◌, Bool, true, false, Option, none, some, List, [], ◌∷◌,
  ◌++◌, get_elem?, length, contains,
}

-- The numbers of the statuses follow the order of the enumeration.
pub data TaskStatus : Type 0 where
  complete incomplete iterate fail : TaskStatus

pub data TaskType : Type 0 where
  normal completion : TaskType

abbrev pub is_complete : TaskStatus → Bool
is_complete complete = true
is_complete s = false

abbrev pub is_incomplete : TaskStatus → Bool
is_incomplete incomplete = true
is_incomplete s = false

abbrev pub is_counted : TaskStatus → Bool
is_counted complete = true
is_counted iterate = true
is_counted s = false

abbrev pub is_completion : TaskType → Bool
is_completion completion = true
is_completion t = false

-- A task, or the tasks that a new one depends on.
pub record TaskId : Type 0 where
  pub task : Option ℕ
  pub dep : List ℕ

unfoldable pub tasks_of : TaskId → List ℕ
tasks_of i = elim i.task [ none ↦ i.dep | some t ↦ t ∷ [] ]

-- The operator | of TaskID.
unfoldable pub both : TaskId → TaskId → TaskId
both a b = record { task = none; dep = tasks_of a ++ tasks_of b }

unfoldable pub is_empty : TaskId → Bool
is_empty i = elim i.task [ none ↦ (length i.dep == 0) | some t ↦ false ]

pub record Task : Type 0 where
  pub dependencies : List ℕ
  pub min_calls : ℕ
  pub max_calls : ℕ
  pub task_type : TaskType
  pub num_calls : ℕ
  pub task_status : TaskStatus

-- The set of dependencies.
unfoldable pub add_all : List ℕ → List ℕ → List ℕ
add_all [] deps = deps
add_all (t ∷ ts) deps = add_all ts (if contains t deps then deps else t ∷ deps)

unfoldable pub dependencies_of : TaskId → List ℕ
dependencies_of i = elim i.task [
  | none ↦ add_all i.dep []
  | some t ↦ if length i.dep == 0 then t ∷ [] else add_all i.dep []
]

unfoldable pub make_task : TaskId → ℕ → ℕ → Task
make_task dep lo hi = record {
  dependencies = dependencies_of dep;
  min_calls = lo;
  max_calls = hi;
  task_type = normal;
  num_calls = 0;
  task_status = incomplete;
}

-- Whether the call counts as an iteration.
unfoldable pub count_call : TaskStatus → ℕ → ℕ
count_call s n = if is_counted s then n + 1 else n

-- The limits on the number of iterations, the least before the greatest.
unfoldable pub limit : Task → ℕ → TaskStatus → TaskStatus
limit t n s =
    let s' = if ltb n t.min_calls && is_complete s then iterate else s in
    if n == t.max_calls then complete else s'

-- The call operator of Task, where its function returns `s`.
unfoldable pub call : TaskStatus → Task → Task × TaskStatus
call s t =
    let n = count_call s t.num_calls in
    if is_completion t.task_type
    then (let s' = limit t n s in (record t { num_calls = n; task_status = s' }, s'))
    else (record t { task_status = s }, s)

-- A dependency has been called, and not asked to be called again.
unfoldable pub ready_on : List Task → List ℕ → Bool
ready_on ts [] = true
ready_on ts (d ∷ ds) =
    (elim (get_elem? ts d) [ none ↦ false | some t ↦ not (is_incomplete t.task_status) ])
    && ready_on ts ds

unfoldable pub ready : List Task → Task → Bool
ready ts t = ready_on ts t.dependencies

unfoldable pub reset_iteration : Task → Task
reset_iteration t = record t { num_calls = 0 }

-- Calls in a row, with what the function returns at each.
unfoldable pub call_all : List TaskStatus → Task → Task
call_all [] t = t
call_all (s ∷ ss) t = call_all ss (call s t).0
