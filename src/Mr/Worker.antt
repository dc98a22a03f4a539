-- ===== src/Mr/Worker.antt =====
-- src/mr/worker.go: bucketing, the map and reduce tasks, and the worker's loop.
-- `sum32` stands for the FNV hash of the standard library, `sort` for sort.Slice by key, and
-- `read` for the records that the JSON decoder finds in the file of a map task and a bucket (none,
-- if the file is not there: the error of os.Open is dropped).
pub mod Buckets
pub mod Loops
use mit_6_5824_lab.Prelude.{
  ◌==◌, if◌then◌else◌, length, get_elem?, set, replicate, ℕ, zero, suc, ◌+◌, ◌-◌, ◌%◌, ◌^◌, ◌<◌,
  String, Bool, true, false, not, Option, none, some, List, [], ◌∷◌, ◌++◌, map, str_eq,
}
use mit_6_5824_lab.Mr.Coordinator.{
  no_type, map_task, reduce_task, wait_task, finished_task, Task, GetTaskReply,
}

pub record KeyValue : Type 0 where
  pub key : String
  pub value : String

-- ihash: `& 0x7fffffff` keeps the low 31 bits.
unfoldable pub ihash : (String → ℕ) → String → ℕ
ihash sum32 key = sum32 key % 2 ^ 31

-- intermediate[bucketNum] = append(intermediate[bucketNum], kv)
unfoldable pub add_to : List (List KeyValue) → ℕ → KeyValue → Option (List (List KeyValue))
add_to buckets b kv = elim (get_elem? buckets b) [
  | none ↦ none
  | some old ↦ some (set buckets b (old ++ kv ∷ []))
]

-- The loop of doMap that fills the buckets; `none` is a panic, which `% 0` and an index out of
-- range are.
unfoldable pub fill :
    (String → ℕ) → ℕ → List (List KeyValue) → List KeyValue → Option (List (List KeyValue))
unfolding ihash add_to
fill sum32 n_reduce buckets [] = some buckets
fill sum32 n_reduce buckets (kv ∷ kvs) =
    elim (if n_reduce == 0 then none else add_to buckets (ihash sum32 kv.key % n_reduce) kv) [
      | none ↦ none
      | some buckets' ↦ fill sum32 n_reduce buckets' kvs
    ]

-- make([][]KeyValue, taskInfo.NReduce), filled.
unfoldable pub intermediate : (String → ℕ) → ℕ → List KeyValue → Option (List (List KeyValue))
unfolding fill
intermediate sum32 n_reduce kvs = fill sum32 n_reduce (replicate n_reduce []) kvs

-- A temporary file of doMap: the prefix of its name is "mr-<map_id>-<bucket>", and its records
-- are what was encoded. `for kv := range intermediate[i]` lets `kv` range over the indices.
pub record TempFile : Type 0 where
  pub map_id : ℕ
  pub bucket : ℕ
  pub records : List ℕ

abbrev pub indices : ℕ → List KeyValue → List ℕ
indices i [] = []
indices i (_ ∷ kvs) = i ∷ indices (i + 1) kvs

unfoldable pub temp_files : ℕ → ℕ → List (List KeyValue) → List TempFile
temp_files map_id i [] = []
temp_files map_id i (kvs ∷ rest) =
    record { map_id = map_id; bucket = i; records = indices 0 kvs } ∷ temp_files map_id (i + 1) rest

-- doMap, from the contents of its input file to its temporary files and the task that it reports.
unfoldable pub do_map :
    (String → ℕ) → Task → (String → String → List KeyValue) → String → Option (List TempFile × ℕ)
unfolding intermediate temp_files
do_map sum32 task mapf content =
    elim (intermediate sum32 task.n_reduce (mapf task.file_name content)) [
      | none ↦ none
      | some buckets ↦ some (temp_files task.task_id 0 buckets, task.task_id)
    ]

-- The first loop of doReduce: the records of all map tasks below `map_num` for the bucket.
unfoldable pub read_all : (ℕ → ℕ → List KeyValue) → ℕ → ℕ → ℕ → List KeyValue
read_all read bucket_num i zero = []
read_all read bucket_num i (suc left) = read i bucket_num ++ read_all read bucket_num (i + 1) left

-- allKV[i-1], where i = 0 is out of range and panics.
abbrev pub before : List KeyValue → ℕ → Option KeyValue
before kvs zero = none
before kvs (suc i) = get_elem? kvs i

-- for j := start; j < end; j++ { temp = append(temp, allKV[j].Value) }
unfoldable pub values_from : List KeyValue → ℕ → ℕ → Option (List String)
values_from kvs j zero = some []
values_from kvs j (suc left) = elim (get_elem? kvs j) [
  | none ↦ none
  | some kv ↦ elim (values_from kvs (j + 1) left) [ none ↦ none | some vs ↦ some (kv.value ∷ vs) ]
]

-- The last loop of doReduce, with `left` rounds to go from the index `i`: the results of the
-- calls of reducef, one to a file.
unfoldable pub reduce_loop :
    (String → List String → String) → List KeyValue → ℕ → ℕ → ℕ → ℕ → Option (List String)
unfolding values_from
reduce_loop reducef kvs start end i zero = some []
reduce_loop reducef kvs start end i (suc left) = elim (get_elem? kvs i) [
  | none ↦ none
  | some here ↦ elim (before kvs i) [
    | none ↦ none
    | some prev ↦ elim (str_eq here.key prev.key) [
      | true ↦ reduce_loop reducef kvs start (end + 1) (i + 1) left
      | false ↦ elim (values_from kvs start (end - start)) [
        | none ↦ none
        | some temp ↦ elim (reduce_loop reducef kvs start end (i + 1) left) [
          | none ↦ none
          | some results ↦ some (reducef prev.key temp ∷ results)
        ]
      ]
    ]
  ]
]

-- doReduce: the results written, and the task that it reports.
unfoldable pub do_reduce :
    (List KeyValue → List KeyValue)
    → (ℕ → ℕ → List KeyValue)
    → Task
    → ℕ
    → ℕ
    → (String → List String → String)
    → Option (List String × ℕ)
unfolding read_all reduce_loop
do_reduce sort read task bucket_num map_num reducef =
    let kvs = sort (read_all read bucket_num 0 map_num) in
    elim (reduce_loop reducef kvs 0 0 0 (length kvs)) [
      | none ↦ none
      | some results ↦ some (results, task.task_id)
    ]

-- What the loop of Worker does in one round.
pub data Action : Type 0 where
  run_map : Task → Action
  run_reduce : Task → ℕ → ℕ → Action
  sleep : Action
  ignore : Action

-- Worker: the actions of up to `rounds` rounds, and whether it has returned. `reply` is assigned
-- once, before the loop.
unfoldable pub worker_loop : ℕ → GetTaskReply → List Action × Bool
worker_loop zero reply = ([], false)
worker_loop (suc rounds) reply =
    let (rest, returned) = worker_loop rounds reply in
    elim reply.task_info.task_type [
      | map_task ↦ (run_map reply.task_info ∷ rest, returned)
      | reduce_task ↦ (run_reduce reply.task_info reply.bucket_num reply.map_num ∷ rest, returned)
      | wait_task ↦ (sleep ∷ rest, returned)
      | finished_task ↦ ([], true)
      | no_type ↦ (ignore ∷ rest, returned)
    ]
