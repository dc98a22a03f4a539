-- ===== src/Mr/Coordinator/Runs.antt =====
-- Runs of the coordinator of src/mr/coordinator.go: from MakeCoordinator through any requests.
use mit_6_5824_lab.Prelude.{
  ltb, if◌then◌else◌, Option-cases, length, get_elem?, set, length-append, lt_of_get_elem?,
  get_elem?_of_lt, ℕ, zero, suc, ◌+◌, ◌≤◌, ◌<◌, String, ◌≡◌, refl, sym, ap, ◌∙◌, inl, inr, none,
  some, List, [], ◌∷◌, ◌++◌, arith,
}
use mit_6_5824_lab.Mr.Coordinator.{
  completed, Task, Coordinator, GetTaskReply, fresh_reply, task_by_id, check_timeout, update_task,
  get_task, report_task, map_tasks, reduce_tasks, make_coordinator,
}
use mit_6_5824_lab.Mr.Coordinator.Valid.{
  Placed, Named, Valid, update-Valid, get_task-Valid, task_by_id_lem,
}
use mit_6_5824_lab.Mr.Coordinator.Answers.{
  Served, handed_map, handed_reduce, waits, finished, Served_of_get_task,
}
use mathlib.Core.Path.{subst}
use native.Mathlib.Nat.{zero-add}

reduce_tasks-Placed :
    (files n i m j : ℕ) (t : Task)
    → get_elem? (reduce_tasks n i m) j ≡ some t
    → files ≤ i
    → Placed files n (i + j) t
unfolding reduce_tasks
reduce_tasks-Placed files n i zero j t h le = cc
reduce_tasks-Placed files n i (suc m) zero t h le = record {
  id = ground arith;
  buckets = ground arith;
  kind = ground arith;
}
reduce_tasks-Placed files n i (suc m) (suc j) t h le =
    let p = reduce_tasks-Placed files n (i + 1) m j t h (omega arith) in
    record { id = omega (arith, p.id); buckets = p.buckets; kind = ground (arith, p.kind) }

made-Placed :
    (files : List String) (n i j m : ℕ) (t : Task)
    → get_elem? (map_tasks n i files ++ reduce_tasks n (i + length files) m) j ≡ some t
    → Placed (i + length files) n (i + j) t
unfolding map_tasks
made-Placed [] n i j m t h =
    let p = reduce_tasks-Placed (i + 0) n (i + 0) m j t h (omega arith) in
    record { id = omega (arith, p.id); buckets = p.buckets; kind = ground (arith, p.kind) }
made-Placed (f ∷ files) n i zero m t h = record {
  id = ground arith;
  buckets = ground arith;
  kind = ground arith;
}
made-Placed (f ∷ files) n i (suc j) m t h =
    let shift : i + length (f ∷ files) ≡ i + 1 + length files = omega arith in
    let p = made-Placed files n (i + 1) j m t (rw shift at h) in
    record { id = omega (arith, p.id); buckets = p.buckets; kind = ground (arith, p.kind) }

made-Named :
    (files : List String) (n i k j m : ℕ) (t : Task)
    → get_elem? (map_tasks n i files ++ reduce_tasks n k m) j ≡ some t
    → Named files j t
unfolding map_tasks
made-Named [] n i k j m t h = ground arith
made-Named (f ∷ files) n i k zero m t h = ground arith
made-Named (f ∷ files) n i k (suc j) m t h = ground (arith, made-Named files n (i + 1) k j m t h)

length-map_tasks : (n i : ℕ) (files : List String) → length (map_tasks n i files) ≡ length files
unfolding map_tasks
length-map_tasks n i [] = refl
length-map_tasks n i (f ∷ files) = ap suc (length-map_tasks n (i + 1) files)

length-reduce_tasks : (n i m : ℕ) → length (reduce_tasks n i m) ≡ m
unfolding reduce_tasks
length-reduce_tasks n i zero = refl
length-reduce_tasks n i (suc m) = ap suc (length-reduce_tasks n (i + 1) m)

make_coordinator-Valid : (files : List String) (n : ℕ) → Valid (make_coordinator files n)
unfolding make_coordinator
make_coordinator-Valid files n = record {
  size = omega (
    arith,
    length-append (map_tasks n 0 files) (reduce_tasks n (length files) n),
    length-map_tasks n 0 files,
    length-reduce_tasks n (length files) n,
  );
  file_count = refl;
  placed = λ i t h.
      let shift : 0 + length files ≡ length files = omega arith in
      let p = made-Placed files n 0 i n t (rw shift h) in
      record { id = omega (arith, p.id); buckets = p.buckets; kind = ground (arith, p.kind) };
  named = λ i t h. made-Named files n 0 (length files) i n t h;
}

found :
    (id : ℕ) (c : Coordinator)
    → Valid c
    → task_by_id 0 c.tasks id ≡ (if ltb id (length c.tasks) then some id else none)
found id c v =
    rw zero-add at (task_by_id_lem 0 id c.tasks (λ j t h. omega (arith, (v.placed j t h).id)))

-- In a valid state ReportTask marks the task whose index is the id as completed and changes
-- nothing else; if there is no such task it ends the process.
pub report_task_lem :
    (id : ℕ) (c : Coordinator)
    → Valid c
    → report_task id c ≡ elim (get_elem? c.tasks id) [
      | none ↦ none
      | some t ↦ some (record c { tasks = set c.tasks id (record t { status = completed }) })
    ]
unfolding report_task update_task
report_task_lem id c v = elim (Option-cases (get_elem? c.tasks id)) [
  | inl missing ↦
      ground (arith, found id c v, λ (p : id < length c.tasks). get_elem?_of_lt c.tasks id p)
  | inr there ↦ ground (arith, found id c v, lt_of_get_elem? c.tasks id there.1)
]

-- One request to the coordinator, at any times.
pub data Request (c : Coordinator) : Coordinator → Type 0 where
  get :
      (curr_time now : ℕ) {c' : Coordinator} {r : GetTaskReply}
      → get_task curr_time now c fresh_reply ≡ some (c', r)
      → Request c c'
  report : (id : ℕ) {c' : Coordinator} → report_task id c ≡ some c' → Request c c'

pub data Reach (files : List String) (n_reduce : ℕ) : Coordinator → Type 0 where
  start : Reach files n_reduce (make_coordinator files n_reduce)
  next : {c c' : Coordinator} → Reach files n_reduce c → Request c c' → Reach files n_reduce c'

-- A request keeps the invariant, the files and the number of reduce tasks.
abbrev Kept : Coordinator → Coordinator → Type 0
Kept c c' = Valid c' × (c'.files ≡ c.files) × (c'.n_reduce ≡ c.n_reduce)

report_task-Kept :
    (id : ℕ) (c : Coordinator) {c' : Coordinator} → Valid c → report_task id c ≡ some c' → Kept c c'
report_task-Kept id c {c'} v h = elim (Option-cases (get_elem? c.tasks id)) [
  | inl missing ↦ let stopped = rw missing at (report_task_lem id c v) in cc
  | inr there ↦
      let (t, e) = there in
      let done = rw e at (report_task_lem id c v) in
      let last : Coordinator = record c {
        tasks = set c.tasks id (record t { status = completed });
      } in
      let same : last ≡ c' = cc in
      let kept =
        update-Valid c id t (record t { status = completed }) c.reduce_count e
          (refl, refl, refl, refl) v in
      (subst Valid same kept, sym (ap (λ d. d.files) same), sym (ap (λ d. d.n_reduce) same))
]

Served-same :
    {now : ℕ} {c c' : Coordinator} {r : GetTaskReply}
    → Served c now c' r
    → (c'.files ≡ c.files) × (c'.n_reduce ≡ c.n_reduce)
Served-same (handed_map i t _ _ _) = (refl, refl)
Served-same (handed_reduce i t _ _ _ _ _) = (refl, refl)
Served-same (waits _ _) = (refl, refl)
Served-same (finished _ _ _ _) = (refl, refl)

Request-Kept : {c c' : Coordinator} → Request c c' → Valid c → Kept c c'
unfolding check_timeout
Request-Kept {c} (get curr_time now h) v =
    let same = Served-same (Served_of_get_task curr_time now c fresh_reply h) in
    (get_task-Valid curr_time now c fresh_reply v h, same.0, same.1)
Request-Kept {c} (report id h) v = report_task-Kept id c v h

-- In every state that requests lead to, the files and the number of reduce tasks are those that
-- MakeCoordinator was given, there are as many tasks as files and reduce tasks, task i is a map task with
-- the name of file i as long as there is one, and a reduce task from there on, and each task has its
-- index as its id and that number of reduce tasks.
pub Reach-Valid :
    {files : List String} {n : ℕ} {c : Coordinator}
    → Reach files n c
    → Valid c × (c.files ≡ files) × (c.n_reduce ≡ n)
unfolding make_coordinator
Reach-Valid {files} {n} start = (make_coordinator-Valid files n, refl, refl)
Reach-Valid (next r q) =
    let (v, files_same, n_same) = Reach-Valid r in
    let (v', files_kept, n_kept) = Request-Kept q v in
    (v', files_kept ∙ files_same, n_kept ∙ n_same)
