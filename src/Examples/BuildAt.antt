-- ===== src/Examples/BuildAt.antt =====
-- A concrete region to which tasks are added, for the theorem on AddTaskImpl of src/tasks/tasks.hpp.
use parthenon.Base.{true, false, some, [], ◌∷◌, length, ok, ◌≡◌, refl, arith}
use parthenon.Tasks.Task.{TaskId, dependencies_of}
use parthenon.Tasks.Build.{TaskList, Region, add_list, make_region, add_task}
use parthenon.Tasks.BuildGraph.{build_graph}
use parthenon.Tasks.Region.{IsRegion}
use parthenon.Tasks.Built.{firsts, IsBuilt}
use parthenon.Tasks.Fresh.{make_region-IsBuilt}
use parthenon.Tasks.Added.{plain, add_task-IsRegion}

abbrev only_list : TaskList
only_list = record {
  unique_id = 0;
  min_calls = 1;
  max_calls = 1;
  first = 0;
  last = 1;
  tasks = 0 ∷ 1 ∷ [];
  regional_tasks = [];
  completion_tasks = [];
}

-- After the first task of the list.
abbrev after_first : TaskId
after_first = record { task = some 0; dep = [] }

add_task-IsRegion_example :
    (r : Region) × (add_task plain 0 after_first (make_region 1)
      ≡ ok (r, record { task = some (length (make_region 1).store); dep = [] }))
    × IsBuilt r
    × (r.graph_built ≡ false)
    × (build_graph r ≡ ok (record r { graph_built = true }))
    × IsRegion r.graph r.store (firsts r.lists)
unfolding make_region add_list dependencies_of
add_task-IsRegion_example =
    add_task-IsRegion (make_region 1) (make_region-IsBuilt 1) 0 only_list refl after_first refl
      (λ d c. let same : d ≡ 0 = ground arith in rw same (refl, refl))
