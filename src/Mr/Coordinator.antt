-- ===== src/Mr/Coordinator.antt =====
-- src/mr/coordinator.go and src/mr/rpc.go. Both RPC handlers hold `c.mu` throughout, so each is one
-- step on the state. Times are nanoseconds since Go's zero time; a `*Task` is its index in
-- `c.tasks`; `none` is a nil dereference or `log.Fatalf`, which end the process.
pub mod Scan
pub mod Answers
pub mod Valid
pub mod Runs
pub mod Buckets
use mit_6_5824_lab.Prelude.{
  ltb, ◌==◌, if◌then◌else◌, length, get_elem?, set, ℕ, zero, suc, ◌+◌, ◌-◌, String, Bool, true,
  false, ◌&&◌, Option, none, some, List, [], ◌∷◌, ◌++◌, map,
}

-- TaskType and Status, with the empty string of a zero `Task`.
pub data TaskType : Type 0 where
  no_type map_task reduce_task wait_task finished_task : TaskType

pub data Status : Type 0 where
  no_status idle in_progress completed : Status

pub record Task : Type 0 where
  pub file_name : String
  pub n_reduce : ℕ
  pub status : Status
  pub task_type : TaskType
  pub start_time : ℕ
  pub task_id : ℕ

abbrev pub zero_task : Task
zero_task = record {
  file_name = "";
  n_reduce = 0;
  status = no_status;
  task_type = no_type;
  start_time = 0;
  task_id = 0;
}

-- NewTask
abbrev pub new_task : TaskType → Task
new_task t = record zero_task { task_type = t }

pub record Coordinator : Type 0 where
  pub tasks : List Task
  pub n_reduce : ℕ
  pub n_map : ℕ
  pub map_count : ℕ
  pub reduce_count : ℕ
  pub files : List String

pub record GetTaskReply : Type 0 where
  pub task_info : Task
  pub bucket_num : ℕ
  pub map_num : ℕ

abbrev pub fresh_reply : GetTaskReply
fresh_reply = record { task_info = zero_task; bucket_num = 0; map_num = 0 }

-- `==` on the constants of the two types.
abbrev pub is_map : TaskType → Bool
is_map map_task = true
is_map _ = false

abbrev pub is_reduce : TaskType → Bool
is_reduce reduce_task = true
is_reduce _ = false

abbrev pub is_idle : Status → Bool
is_idle idle = true
is_idle _ = false

abbrev pub is_in_progress : Status → Bool
is_in_progress in_progress = true
is_in_progress _ = false

abbrev pub is_completed : Status → Bool
is_completed completed = true
is_completed _ = false

-- getTaskByTaskId: the index of the first task with the id, counted from `i`.
unfoldable pub task_by_id : ℕ → List Task → ℕ → Option ℕ
task_by_id i [] id = none
task_by_id i (t ∷ ts) id =
    let rest = task_by_id (i + 1) ts id in if t.task_id == id then some i else rest

-- checkTimeout, for one task: 10 * time.Second, and `-` is `Sub` of two times in order.
unfoldable pub expire : ℕ → Task → Task
expire curr_time t =
    if ltb 10_000_000_000 (curr_time - t.start_time) && is_in_progress t.status
    then record t { status = idle }
    else t

-- checkTimeout
unfoldable pub check_timeout : ℕ → Coordinator → Coordinator
check_timeout curr_time c = record c { tasks = map (expire curr_time) c.tasks }

-- The loop of getMapTask and getReduceTask, which differ in the type they look for: `i` is the
-- loop's index and `progress` the slice of indices.
unfoldable pub scan : (TaskType → Bool) → ℕ → List ℕ → List Task → Status × Option ℕ
scan wanted i progress [] = elim progress [ [] ↦ (completed, none) | p ∷ _ ↦ (in_progress, some p) ]
scan wanted i progress (t ∷ ts) =
    let rest = scan wanted (i + 1) progress ts in
    let rest_busy = scan wanted (i + 1) (progress ++ i ∷ []) ts in
    if wanted t.task_type
    then (if is_idle t.status
        then (idle, some i)
        else if is_in_progress t.status
        then rest_busy
        else rest)
    else rest

-- getMapTask and getReduceTask
unfoldable pub get_map_task : Coordinator → Status × Option ℕ
unfolding scan
get_map_task c = scan is_map 0 [] c.tasks

unfoldable pub get_reduce_task : Coordinator → Status × Option ℕ
unfolding scan
get_reduce_task c = scan is_reduce 0 [] c.tasks

-- task.Status = InProgress; task.StartTime = time.Now()
unfoldable pub start_task : ℕ → Task → Task
start_task now t = record t { status = in_progress; start_time = now }

-- `*p = f(*p)` through a pointer into `c.tasks`, with the task that it then holds.
unfoldable pub update_task : Option ℕ → (Task → Task) → Coordinator → Option (Coordinator × Task)
update_task none f c = none
update_task (some i) f c = elim (get_elem? c.tasks i) [
  | none ↦ none
  | some t ↦ some (record c { tasks = set c.tasks i (f t) }, f t)
]

-- The branches of GetTask after checkTimeout and the two scans.
unfoldable pub choose_task :
    ℕ
    → Coordinator
    → GetTaskReply
    → Status × Option ℕ
    → Status × Option ℕ
    → Option (Coordinator × GetTaskReply)
unfolding update_task start_task
choose_task now c reply (map_status, map_ptr) (reduce_status, reduce_ptr) =
    if is_completed map_status && is_completed reduce_status
    then some (c, record fresh_reply { task_info = new_task finished_task })
    else if is_idle map_status
    then (elim (update_task map_ptr (start_task now) c) [
      | none ↦ none
      | some (c', t) ↦ some (c', record fresh_reply { task_info = t })
    ])
    else if is_in_progress map_status
    then some (c, record fresh_reply { task_info = new_task wait_task })
    else if is_completed map_status && is_idle reduce_status
    then (elim (update_task reduce_ptr (start_task now) c) [
      | none ↦ none
      | some (c', t) ↦ some (
        record c' { reduce_count = c'.reduce_count + 1 },
        record { task_info = t; bucket_num = c'.reduce_count; map_num = length c'.files },
      )
    ])
    else if is_completed map_status && is_in_progress reduce_status
    then some (c, record fresh_reply { task_info = new_task wait_task })
    else some (c, reply)

-- GetTask. `curr_time` is what time.Now returns in checkTimeout, and `now` what it returns later,
-- for the task that is handed out.
unfoldable pub get_task : ℕ → ℕ → Coordinator → GetTaskReply → Option (Coordinator × GetTaskReply)
unfolding check_timeout get_map_task get_reduce_task choose_task
get_task curr_time now c reply =
    let c' = check_timeout curr_time c in
    choose_task now c' reply (get_map_task c') (get_reduce_task c')

-- ReportTask; its reply says only that it has run.
unfoldable pub report_task : ℕ → Coordinator → Option Coordinator
unfolding task_by_id update_task
report_task id c =
    elim (update_task (task_by_id 0 c.tasks id) (λ t. record t { status = completed }) c) [
      | none ↦ none
      | some (c', _) ↦ some c'
    ]

-- The two loops of MakeCoordinator, from the index `i`.
unfoldable pub map_tasks : ℕ → ℕ → List String → List Task
map_tasks n_reduce i [] = []
map_tasks n_reduce i (file ∷ files) =
    record {
      file_name = file;
      n_reduce = n_reduce;
      status = idle;
      task_type = map_task;
      start_time = 0;
      task_id = i;
    }
    ∷ map_tasks n_reduce (i + 1) files

unfoldable pub reduce_tasks : ℕ → ℕ → ℕ → List Task
reduce_tasks n_reduce i zero = []
reduce_tasks n_reduce i (suc left) =
    record {
      file_name = "";
      n_reduce = n_reduce;
      status = idle;
      task_type = reduce_task;
      start_time = 0;
      task_id = i;
    }
    ∷ reduce_tasks n_reduce (i + 1) left

-- MakeCoordinator, without the call of `server`, which opens the socket.
unfoldable pub make_coordinator : List String → ℕ → Coordinator
unfolding map_tasks reduce_tasks
make_coordinator files n_reduce = record {
  tasks = map_tasks n_reduce 0 files ++ reduce_tasks n_reduce (length files) n_reduce;
  n_reduce = n_reduce;
  n_map = length files;
  map_count = 0;
  reduce_count = 0;
  files = files;
}

-- Done
unfoldable pub done : Coordinator → Bool
done c = false
