-- ===== src/Mr/Tests.antt =====
-- Runs of the coordinator and the worker of src/mr.
use mit_6_5824_lab.Prelude.{length, get_elem?, ℕ, ◌<◌, ◌≡◌, refl, true, some, List, [], ◌∷◌, arith}
use mit_6_5824_lab.Mr.Coordinator.{
  map_task, reduce_task, in_progress, completed, Task, Coordinator, GetTaskReply, fresh_reply,
  is_reduce, task_by_id, expire, check_timeout, scan, get_map_task, get_reduce_task, start_task,
  update_task, choose_task, get_task, map_tasks, reduce_tasks, make_coordinator,
}
use mit_6_5824_lab.Mr.Coordinator.Buckets.{started, NoneLost, get_task-bucket_lt}
use mit_6_5824_lab.Mr.Coordinator.Answers.{Served, get_task-Served}
use mit_6_5824_lab.Mr.Coordinator.Valid.{Valid}
use mit_6_5824_lab.Mr.Coordinator.Runs.{get, start, next, Reach-Valid}
use mit_6_5824_lab.Mr.Worker.{KeyValue, intermediate}
use mit_6_5824_lab.Mr.Worker.Buckets.{in_bucket, intermediate_lem}

abbrev fresh : Coordinator
fresh = make_coordinator ("pg.txt" ∷ []) 2

abbrev a_map : Task
a_map = record {
  file_name = "pg.txt";
  n_reduce = 1;
  status = completed;
  task_type = map_task;
  start_time = 3;
  task_id = 0;
}

abbrev a_reduce : Task
a_reduce = record {
  file_name = "";
  n_reduce = 1;
  status = in_progress;
  task_type = reduce_task;
  start_time = 5;
  task_id = 1;
}

-- The only reduce task was assigned at time 5.
abbrev assigned : Coordinator
assigned = record {
  tasks = a_map ∷ a_reduce ∷ [];
  n_reduce = 1;
  n_map = 1;
  map_count = 0;
  reduce_count = 1;
  files = "pg.txt" ∷ [];
}

abbrev reassigned : Coordinator
reassigned = record assigned {
  tasks = a_map ∷ record a_reduce { start_time = 40_000_000_000 } ∷ [];
  reduce_count = 2;
}

abbrev past_reply : GetTaskReply
past_reply = record {
  task_info = record a_reduce { start_time = 40_000_000_000 };
  bucket_num = 1;
  map_num = 1;
}

reassigned_run :
    get_task 40_000_000_000 40_000_000_000 assigned fresh_reply ≡ some (reassigned, past_reply)
unfolding get_task check_timeout expire choose_task get_map_task get_reduce_task scan update_task
    start_task task_by_id
reassigned_run = refl

get_task-Served_example :
    (c' : Coordinator) × (r : GetTaskReply) × (get_task 40_000_000_000 40_000_000_000 assigned
        fresh_reply
      ≡ some (c', r))
    × Served (check_timeout 40_000_000_000 assigned) 40_000_000_000 c' r
get_task-Served_example = get_task-Served 40_000_000_000 40_000_000_000 assigned fresh_reply

Reach-Valid_example :
    Valid (get_task-Served 1 2 fresh fresh_reply).0
    × ((get_task-Served 1 2 fresh fresh_reply).0.files ≡ "pg.txt" ∷ [])
    × ((get_task-Served 1 2 fresh fresh_reply).0.n_reduce ≡ 2)
Reach-Valid_example = Reach-Valid (next start (get 1 2 (get_task-Served 1 2 fresh fresh_reply).2))

none_lost : NoneLost (check_timeout 1 fresh)
unfolding check_timeout expire started make_coordinator map_tasks reduce_tasks
none_lost = refl

get_task-bucket_lt_example :
    (is_reduce (get_task-Served 1 2 fresh fresh_reply).1.task_info.task_type ≡ true
      → (get_task-Served 1 2 fresh fresh_reply).1.bucket_num < 2)
    × NoneLost (get_task-Served 1 2 fresh fresh_reply).0
unfolding make_coordinator
get_task-bucket_lt_example =
    get_task-bucket_lt 1 2 fresh (get_task-Served 1 2 fresh fresh_reply).0
      (get_task-Served 1 2 fresh fresh_reply).1 (Reach-Valid start).0 none_lost
      (get_task-Served 1 2 fresh fresh_reply).2

abbrev a_kv : KeyValue
a_kv = record { key = "the"; value = "1" }

intermediate_lem_example :
    (filled : List (List KeyValue)) × (intermediate (λ _. 7) 3 (a_kv ∷ []) ≡ some filled)
    × (length filled ≡ 3)
    × ((b : ℕ) → b < 3 → get_elem? filled b ≡ some (in_bucket (λ _. 7) 3 b (a_kv ∷ [])))
intermediate_lem_example = intermediate_lem (λ _. 7) 3 (a_kv ∷ []) (omega arith)
