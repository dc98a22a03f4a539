-- ===== src/Mr/Coordinator/Buckets.antt =====
-- The bucket numbers that GetTask of src/mr/coordinator.go hands out with the reduce tasks: it
-- counts assignments, and the map workers fill the buckets below n_reduce.
use mit_6_5824_lab.Prelude.{
  if◌then◌else◌, length, get_elem?, set, ℕ, zero, suc, ◌+◌, ◌-◌, ◌≤◌, ◌<◌, ◌≡◌, refl, true, not,
  ◌&&◌, some, List, [], ◌∷◌, arith,
}
use mit_6_5824_lab.Mr.Coordinator.Answers.{
  Served, handed_map, handed_reduce, waits, finished, Served_of_get_task,
}
use mit_6_5824_lab.Mr.Coordinator.{
  Task, Coordinator, GetTaskReply, fresh_reply, is_reduce, is_idle, check_timeout, start_task,
  get_task,
}
use mit_6_5824_lab.Mr.Coordinator.Valid.{Placed, Valid, check_timeout-Valid}

-- The reduce tasks that are not idle; all reduce tasks.
unfoldable pub started : List Task → ℕ
started [] = 0
started (t ∷ ts) = (if is_reduce t.task_type && not (is_idle t.status) then 1 else 0) + started ts

unfoldable pub reduces : List Task → ℕ
reduces [] = 0
reduces (t ∷ ts) = (if is_reduce t.task_type then 1 else 0) + reduces ts

started-start :
    (now : ℕ) (ts : List Task) (i : ℕ) (t : Task)
    → get_elem? ts i ≡ some t
    → is_idle t.status ≡ true
    → started (set ts i (start_task now t)) ≡ (if is_reduce t.task_type then 1 else 0) + started ts
unfolding started start_task
started-start now [] i t h free = cc
started-start now (u ∷ ts) zero t h free = ground arith
started-start now (u ∷ ts) (suc i) t h free = omega (arith, started-start now ts i t h free)

started-lt-reduces :
    (ts : List Task) (i : ℕ) (t : Task)
    → get_elem? ts i ≡ some t
    → is_reduce t.task_type ≡ true
    → is_idle t.status ≡ true
    → started ts < reduces ts
unfolding started reduces
started-lt-reduces [] i t h r free = cc
started-lt-reduces (u ∷ ts) zero t h r free = ground (arith, started-le ts)
  where
    started-le : (xs : List Task) → started xs ≤ reduces xs
    started-le [] = omega arith
    started-le (x ∷ xs) = ground (arith, started-le xs)
started-lt-reduces (u ∷ ts) (suc i) t h r free = ground (arith, started-lt-reduces ts i t h r free)

reduces-Placed :
    (n_map n i : ℕ) (ts : List Task)
    → ((j : ℕ) (t : Task) → get_elem? ts j ≡ some t → Placed n_map n (i + j) t)
    → reduces ts ≡ length ts - (n_map - i)
unfolding reduces
reduces-Placed n_map n i [] h = omega arith
reduces-Placed n_map n i (t ∷ ts) h = ground (
  arith,
  (h 0 t refl).kind,
  reduces-Placed n_map n (i + 1) ts (λ j u e.
      let p = h (suc j) u e in
      record { id = omega (arith, p.id); buckets = p.buckets; kind = ground (arith, p.kind) }),
)

-- As many assignments of reduce tasks are counted as reduce tasks are in progress or completed.
abbrev pub NoneLost : Coordinator → Type 0
NoneLost c = c.reduce_count ≡ started c.tasks

Served-bucket_lt :
    {now : ℕ} {c c' : Coordinator} {r : GetTaskReply}
    → Valid c
    → NoneLost c
    → Served c now c' r
    → (is_reduce r.task_info.task_type ≡ true → r.bucket_num < c.n_reduce) × NoneLost c'
Served-bucket_lt {now} {c} v lost (handed_map i t there of_type free) = (
  unfold start_task in λ p. ground arith,
  ground (arith, started-start now c.tasks i t there free),
)
Served-bucket_lt {now} {c} v lost (handed_reduce i t _ _ there of_type free) = (
  λ p. omega (
    arith,
    v.size,
    started-lt-reduces c.tasks i t there of_type free,
    reduces-Placed c.n_map c.n_reduce 0 c.tasks (λ j u e.
        let q = v.placed j u e in
        record { id = omega (arith, q.id); buckets = q.buckets; kind = ground (arith, q.kind) }),
  ),
  ground (arith, started-start now c.tasks i t there free),
)
Served-bucket_lt v lost (waits _ _) = (λ p. cc, lost)
Served-bucket_lt v lost (finished _ _ _ _) = (λ p. cc, lost)

-- If, when the tasks that have timed out are idle again, as many assignments of reduce tasks were counted as reduce
-- tasks are not idle, then a reduce task is handed out with a bucket number below n_reduce, and then again as
-- many are counted.
pub get_task-bucket_lt :
    (curr_time now : ℕ) (c c' : Coordinator) (r : GetTaskReply)
    → Valid c
    → NoneLost (check_timeout curr_time c)
    → get_task curr_time now c fresh_reply ≡ some (c', r)
    → (is_reduce r.task_info.task_type ≡ true → r.bucket_num < c.n_reduce) × NoneLost c'
unfolding check_timeout
get_task-bucket_lt curr_time now c c' r v none_lost h =
    Served-bucket_lt (check_timeout-Valid curr_time c v) none_lost
      (Served_of_get_task curr_time now c fresh_reply h)
