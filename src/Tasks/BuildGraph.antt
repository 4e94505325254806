-- ===== src/Tasks/BuildGraph.antt =====
-- BuildGraph of src/tasks/tasks.hpp, with AddRegionalDependencies and ConnectIteration, for lists without
-- sublists.
use parthenon.Base.{
  ℕ, zero, suc, ◌==◌, if◌then◌else◌, true, Option, none, some, List, [], ◌∷◌, get_elem?, length,
  Result, ok, err, ◌>>=◌, contains,
}
use parthenon.Tasks.Task.{Task, complete, iterate}
use parthenon.Tasks.Execute.{Edges}
use parthenon.Tasks.Build.{
  TaskList, Region, Error, no_list, no_regional_task, modify, add_dependent,
}

-- The regional tasks at one position of all lists.
unfoldable pub regional_at : ℕ → List TaskList → Result Error (List ℕ)
regional_at i [] = ok []
regional_at i (l ∷ ls) = elim (get_elem? l.regional_tasks i) [
  | none ↦ err no_regional_task
  | some t ↦ regional_at i ls >>= λ ts. ok (t ∷ ts)
]

abbrev pub insert_dependency : ℕ → Task → Task
insert_dependency d t = record t {
  dependencies = if contains d t.dependencies then t.dependencies else d ∷ t.dependencies;
}

-- The task at `t` made to depend on the regional tasks from position `k` on, but for that of the list `j`.
unfoldable pub depend_on : ℕ → ℕ → List ℕ → ℕ → Region → Region
depend_on j k [] t r = r
depend_on j k (d ∷ ds) t r = depend_on j (suc k) ds t (
    if j == k then r else (record r {
      store = modify t (insert_dependency d) r.store;
      graph = add_dependent d t complete r.graph;
    }))

unfoldable pub depend_all : ℕ → List ℕ → List ℕ → Region → Region
depend_all j ds [] r = r
depend_all j ds (t ∷ ts) r = depend_all j ds ts (depend_on j 0 ds t r)

unfoldable pub dependents_of : List Edges → ℕ → List ℕ
dependents_of g t = elim (get_elem? g t) [ none ↦ [] | some e ↦ e.on_complete ]

-- The dependents that each list has before any is added, from the list `j` on.
unfoldable pub join_lists : List Edges → ℕ → List ℕ → List ℕ → Region → Region
join_lists g j ds [] r = r
join_lists g j ds (t ∷ ts) r = join_lists g (suc j) ds ts (depend_all j ds (dependents_of g t) r)

-- The positions from `i` on, `count` of them.
unfoldable pub join_regional : ℕ → ℕ → Region → Result Error Region
join_regional i zero r = ok r
join_regional i (suc count) r =
    regional_at i r.lists >>= λ ts. join_regional (suc i) count (join_lists r.graph 0 ts ts r)

unfoldable pub add_regional_dependencies : Region → Result Error Region
add_regional_dependencies r = elim r.lists [
  | [] ↦ err no_list
  | l ∷ ls ↦ join_regional 0 (length l.regional_tasks) r
]

abbrev pub last_of : List ℕ → Option ℕ
last_of [] = none
last_of (t ∷ []) = some t
last_of (t ∷ u ∷ ts) = last_of (u ∷ ts)

-- The last completion task of each list leads back to the first task of the list.
unfoldable pub connect_iteration : List TaskList → List Edges → List Edges
connect_iteration [] g = g
connect_iteration (l ∷ ls) g =
    connect_iteration ls
      (elim (last_of l.completion_tasks) [ none ↦ g | some t ↦ add_dependent t l.first iterate g ])

unfoldable pub build_graph : Region → Result Error Region
build_graph r = add_regional_dependencies r >>= λ t.
    ok (record t { graph = connect_iteration t.lists t.graph; graph_built = true })
