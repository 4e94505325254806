-- ===== src/Tasks/Limits.antt =====
-- The limits on the iterations of a completion task, src/tasks/tasks.hpp.
use parthenon.Base.{ℕ, ◌+◌, ◌<◌, true, List, [], ◌∷◌, length, ◌≡◌, refl, arith, All}
use parthenon.Tasks.Task.{
  TaskStatus, complete, iterate, is_counted, is_completion, Task, count_call, limit, call, call_all,
}

-- What is known after some counted calls.
record Called (t u : Task) (n : ℕ) : Type 0 where
  same_type : is_completion u.task_type ≡ true
  same_min : u.min_calls ≡ t.min_calls
  same_max : u.max_calls ≡ t.max_calls
  counted : u.num_calls ≡ n + t.num_calls

call-Called :
    (s : TaskStatus) (t : Task)
    → is_completion t.task_type ≡ true
    → is_counted s ≡ true
    → Called t (call s t).0 1
unfolding call count_call
call-Called s t c h =
    rw (c, h) record { same_type = c; same_min = refl; same_max = refl; counted = omega arith }

-- If every call of a completion task counts, the call that reaches its greatest number of
-- iterations leaves it complete, whatever its function returned.
pub call_all-max_calls :
    (s : TaskStatus) (ss : List TaskStatus) (t : Task)
    → is_completion t.task_type ≡ true
    → All (λ x. is_counted x ≡ true) (s ∷ ss)
    → length (s ∷ ss) + t.num_calls ≡ t.max_calls
    → ((call_all (s ∷ ss) t).task_status ≡ complete)
      × ((call_all (s ∷ ss) t).num_calls ≡ t.max_calls)
unfolding call_all call limit count_call
call_all-max_calls s [] t c h e = ground arith
call_all-max_calls s (s' ∷ ss) t c h e =
    let k = call-Called s t c h.0 in
    let r =
      call_all-max_calls s' ss (call s t).0 k.same_type h.1
        (ground (arith, k.same_max, k.counted)) in
    ground (arith, r.0, r.1, k.same_max)

-- While the counted calls of a completion task are fewer than its least number of iterations, and
-- fewer than the greatest, every one of them leaves it to iterate.
call_all-min_calls :
    (s : TaskStatus) (ss : List TaskStatus) (t : Task)
    → is_completion t.task_type ≡ true
    → All (λ x. is_counted x ≡ true) (s ∷ ss)
    → length (s ∷ ss) + t.num_calls < t.min_calls
    → length (s ∷ ss) + t.num_calls < t.max_calls
    → (call_all (s ∷ ss) t).task_status ≡ iterate
unfolding call_all call limit count_call
call_all-min_calls s [] t c h lo hi = ground arith
call_all-min_calls s (s' ∷ ss) t c h lo hi =
    let k = call-Called s t c h.0 in
    call_all-min_calls s' ss (call s t).0 k.same_type h.1 (ground (arith, k.same_min, k.counted))
      (ground (arith, k.same_max, k.counted))
