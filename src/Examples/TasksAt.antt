-- ===== src/Examples/TasksAt.antt =====
-- Concrete tasks and buffers' masks for the theorems on src/tasks/tasks.hpp and
-- src/mesh/forest/block_ownership.cpp.
use parthenon.Base.{true, false, [], ◌∷◌, ◌≡◌, refl}
use parthenon.Tasks.Task.{complete, iterate, completion, Task, call_all}
use parthenon.Tasks.Limits.{call_all-max_calls}
use parthenon.Ownership.Mask.{
  f1, low, mid, high, topological_offset_i, topological_offset_j, topological_offset_k,
  BlockOwnership, copied, get_index_range_mask,
}
use parthenon.Ownership.Reading.{inner, get_index_range_mask-at}

abbrev solver : Task
solver = record {
  dependencies = [];
  min_calls = 3;
  max_calls = 5;
  task_type = completion;
  num_calls = 0;
  task_status = complete;
}

call_all-max_calls_example :
    ((call_all (iterate ∷ iterate ∷ iterate ∷ iterate ∷ iterate ∷ []) solver).task_status
      ≡ complete)
    × ((call_all (iterate ∷ iterate ∷ iterate ∷ iterate ∷ iterate ∷ []) solver).num_calls ≡ 5)
call_all-max_calls_example =
    call_all-max_calls iterate (iterate ∷ iterate ∷ iterate ∷ iterate ∷ []) solver refl
      (refl, (refl, (refl, (refl, (refl, tt))))) refl

-- The block owns its interior and its lower face in the first direction.
abbrev owned : BlockOwnership
owned low mid mid = true
owned mid mid mid = true
owned i j k = false

get_index_range_mask-at_example :
    get_index_range_mask f1 owned high mid mid low mid mid
    ≡ owned
        (copied (topological_offset_i f1) (inner high low))
        (copied (topological_offset_j f1) (inner mid mid))
        (copied (topological_offset_k f1) (inner mid mid))
get_index_range_mask-at_example = get_index_range_mask-at f1 owned high mid mid low mid mid
