-- ===== src/Mr/Worker/Loops.antt =====
-- The loops of doReduce and Worker in src/mr/worker.go.
use mit_6_5824_lab.Prelude.{
  length, replicate, ℕ, zero, suc, String, ◌≡◌, refl, Bool, true, false, Option, none, some, List,
  [], ◌∷◌, arith,
}
use mit_6_5824_lab.Mr.Coordinator.{
  TaskType, map_task, reduce_task, wait_task, finished_task, Task, GetTaskReply,
}
use mit_6_5824_lab.Mr.Worker.{
  KeyValue, read_all, reduce_loop, do_reduce, Action, run_map, run_reduce, sleep, ignore,
  worker_loop,
}

-- What doReduce would return if it called the reduce function not once.
abbrev pub only_if_empty : Task → List KeyValue → Option (List String × ℕ)
only_if_empty task [] = some ([], task.task_id)
only_if_empty task (_ ∷ _) = none

-- For any sort that keeps the number of records, doReduce panics as soon as one record was read
-- for its bucket, since its first round reads allKV[-1]; with no record it calls the reduce
-- function not once and reports the task.
pub do_reduce_panics :
    (sort : List KeyValue → List KeyValue) (read : ℕ → ℕ → List KeyValue) (task : Task)
    (bucket_num map_num : ℕ) (reducef : String → List String → String)
    → ((kvs : List KeyValue) → length (sort kvs) ≡ length kvs)
    → do_reduce sort read task bucket_num map_num reducef
      ≡ only_if_empty task (read_all read bucket_num 0 map_num)
unfolding do_reduce
do_reduce_panics sort read task bucket_num map_num reducef keeps =
    go (read_all read bucket_num 0 map_num) (sort (read_all read bucket_num 0 map_num))
      (keeps (read_all read bucket_num 0 map_num))
  where
    go :
        (kvs sorted : List KeyValue)
        → length sorted ≡ length kvs
        → elim (reduce_loop reducef sorted 0 0 0 (length sorted)) [
          | none ↦ none
          | some results ↦ some (results, task.task_id)
        ]
          ≡ only_if_empty task kvs
    go [] [] e = refl
    go [] (s ∷ sorted) e = absurd (omega arith)
    go (kv ∷ kvs) [] e = absurd (omega arith)
    go (kv ∷ kvs) (s ∷ sorted) e = refl

-- What a reply has a worker do, round after round.
abbrev pub action_of : GetTaskReply → TaskType → Action
action_of reply map_task = run_map reply.task_info
action_of reply reduce_task = run_reduce reply.task_info reply.bucket_num reply.map_num
action_of reply wait_task = sleep
action_of reply _ = ignore

abbrev pub is_finished : TaskType → Bool
is_finished finished_task = true
is_finished _ = false

-- A worker whose first reply is not a finished one never returns and never asks again: in any
-- number of rounds it does the first reply's action over and over.
pub worker_loop_repeats :
    (rounds : ℕ) (reply : GetTaskReply)
    → is_finished reply.task_info.task_type ≡ false
    → worker_loop rounds reply
      ≡ (replicate rounds (action_of reply reply.task_info.task_type), false)
unfolding worker_loop
worker_loop_repeats zero reply h = refl
worker_loop_repeats (suc rounds) reply h = ground (arith, worker_loop_repeats rounds reply h)
