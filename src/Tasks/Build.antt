-- ===== src/Tasks/Build.antt =====
-- The construction of a task region: TaskList, AddTaskImpl, AddRegionalDependencies, ConnectIteration and
-- BuildGraph of src/tasks/tasks.hpp, for lists without sublists and tasks without a global synchronisation.
-- All tasks of a region stand in one store, where a task is named by its position.
use parthenon.Base.{
  ℕ, zero, suc, ◌==◌, not, ◌||◌, if◌then◌else◌, Bool, false, none, some, List, [], ◌∷◌, ◌++◌,
  get_elem?, length, Result, ok, err, guard, ◌>>◌,
}
use parthenon.Tasks.Task.{
  TaskStatus, complete, iterate, completion, is_completion, TaskId, is_empty, Task, make_task,
}
use parthenon.Tasks.Execute.{Body, user, first_task, last_task, skipped, Edges}

pub record Qualifier : Type 0 where
  pub local_sync : Bool
  pub completion_task : Bool
  pub once : Bool

pub record TaskList : Type 0 where
  pub unique_id : ℕ
  pub min_calls : ℕ
  pub max_calls : ℕ
  -- The positions of its tasks, the first and the last task among them.
  pub first : ℕ
  pub last : ℕ
  pub tasks : List ℕ
  pub regional_tasks : List ℕ
  pub completion_tasks : List ℕ

pub record Region : Type 0 where
  pub store : List Task
  pub graph : List Edges
  pub lists : List TaskList
  pub graph_built : Bool

pub data Error : Type 0 where
  already_built : Error
  no_list : Error
  no_regional_task : Error

-- A change at one position of a list.
unfoldable pub modify {ℓ} : {A : Type ℓ} → ℕ → (A → A) → List A → List A
modify i f [] = []
modify zero f (x ∷ xs) = f x ∷ xs
modify (suc i) f (x ∷ xs) = x ∷ modify i f xs

abbrev pub on_status : TaskStatus → ℕ → Edges → Edges
on_status TaskStatus.complete t e = record e { on_complete = e.on_complete ++ t ∷ [] }
on_status TaskStatus.incomplete t e = record e { on_incomplete = e.on_incomplete ++ t ∷ [] }
on_status TaskStatus.iterate t e = record e { on_iterate = e.on_iterate ++ t ∷ [] }
on_status TaskStatus.fail t e = e

-- AddDependent of the task at `d`.
unfoldable pub add_dependent : ℕ → ℕ → TaskStatus → List Edges → List Edges
add_dependent d t s g = modify d (on_status s t) g

-- A new task depends on itself to be repeated.
abbrev pub new_edges : Body → ℕ → Edges
new_edges body n = record { body = body; on_complete = []; on_incomplete = n ∷ []; on_iterate = [] }

-- A list with its first and its last task, which depend on nothing.
unfoldable pub add_list : ℕ → Region → Region
add_list unique_id r =
    let n = length r.store in
    let nothing : TaskId = record { task = none; dep = [] } in
    record r {
      store = r.store ++ make_task nothing 1 1 ∷ make_task nothing 1 1 ∷ [];
      graph =
          r.graph
          ++ new_edges (first_task (n ∷ suc n ∷ [])) n ∷ new_edges (last_task []) (suc n) ∷ [];
      lists =
          r.lists
          ++ record {
            unique_id = unique_id;
            min_calls = 1;
            max_calls = 1;
            first = n;
            last = suc n;
            tasks = n ∷ suc n ∷ [];
            regional_tasks = [];
            completion_tasks = [];
          }
            ∷ [];
    }

-- The lists of a new region, numbered.
unfoldable pub make_region : ℕ → Region
make_region zero = record { store = []; graph = []; lists = []; graph_built = false }
make_region (suc n) = add_list n (make_region n)

-- Makes the task at `n` run after its dependencies.
unfoldable pub connect : List Task → ℕ → List ℕ → List Edges → List Edges
connect store n [] g = g
connect store n (d ∷ ds) g =
    let s : TaskStatus = elim (get_elem? store d) [
      | none ↦ complete
      | some t ↦ if is_completion t.task_type then iterate else complete
    ] in
    connect store n ds (add_dependent d n s g)

abbrev pub when_set : Bool → ℕ → List ℕ → List ℕ
when_set b n ns = if b then ns ++ n ∷ [] else ns

-- The last task resets the completion tasks, and the first one all tasks, of the list as it is when they run.
unfoldable pub track : TaskList → List Edges → List Edges
track l g =
    modify l.last (λ e. record e { body = last_task l.completion_tasks })
      (modify l.first (λ e. record e { body = first_task l.tasks }) g)

abbrev pub put_list : ℕ → TaskList → List TaskList → List TaskList
put_list i l ls = modify i (λ o. l) ls

-- The list with the task at `n` added to it.
unfoldable pub enlisted : Qualifier → ℕ → TaskList → TaskList
enlisted tq n l = record l {
  tasks = l.tasks ++ n ∷ [];
  regional_tasks = when_set (tq.local_sync || tq.once) n l.regional_tasks;
  completion_tasks = when_set tq.completion_task n l.completion_tasks;
}

-- AddTaskImpl, for the list at `i`.
unfoldable pub add_task : Qualifier → ℕ → TaskId → Region → Result Error (Region × TaskId)
add_task tq i dep r = guard (not r.graph_built) already_built >> elim (get_elem? r.lists i) [
  | none ↦ err no_list
  | some l ↦
      let n = length r.store in
      let t =
        make_task (if is_empty dep then record { task = some l.first; dep = [] } else dep)
          l.min_calls l.max_calls in
      let t' = if tq.completion_task then record t { task_type = completion } else t in
      let e = new_edges (if not tq.once || l.unique_id == 0 then user else skipped) n in
      let e' = if tq.completion_task then on_status TaskStatus.complete l.last e else e in
      let l' = enlisted tq n l in
      ok (
        record r {
          store = r.store ++ t' ∷ [];
          graph = track l' (connect r.store n t.dependencies (r.graph ++ e' ∷ []));
          lists = put_list i l' r.lists;
        },
        record { task = some n; dep = [] },
      )
]
