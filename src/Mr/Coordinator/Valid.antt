-- ===== src/Mr/Coordinator/Valid.antt =====
-- The invariant of the coordinator of src/mr/coordinator.go, from MakeCoordinator on.
use mit_6_5824_lab.Mr.Coordinator.Answers.{
  Served, handed_map, handed_reduce, waits, finished, Served_of_get_task,
}
use mit_6_5824_lab.Prelude.{
  ltb, if◌then◌else◌, length, get_elem?, set, length-set, length-map, get_elem?-map_inv,
  get_elem?-set_inv, ℕ, zero, suc, ◌+◌, String, ◌≡◌, refl, inl, inr, true, none, some, List, [],
  ◌∷◌, arith,
}
use mit_6_5824_lab.Mr.Coordinator.{
  Task, Coordinator, GetTaskReply, is_map, is_reduce, task_by_id, expire, check_timeout, start_task,
  get_task,
}

-- Task i is a map task for i < n_map and a reduce task from there on, has the id i, and has the
-- number of reduce tasks that its worker needs.
pub record Placed (n_map n_reduce i : ℕ) (t : Task) : Type 0 where
  pub id : t.task_id ≡ i
  pub buckets : t.n_reduce ≡ n_reduce
  pub kind : (if ltb i n_map then is_map t.task_type else is_reduce t.task_type) ≡ true

-- Task i has the name of file i, and of no file from the number of files on.
abbrev pub Named : List String → ℕ → Task → Type 0
Named files i t = get_elem? files i ≡ (if ltb i (length files) then some t.file_name else none)

pub record Valid (c : Coordinator) : Type 0 where
  pub size : length c.tasks ≡ c.n_map + c.n_reduce
  pub file_count : length c.files ≡ c.n_map
  pub placed : (i : ℕ) (t : Task) → get_elem? c.tasks i ≡ some t → Placed c.n_map c.n_reduce i t
  pub named : (i : ℕ) (t : Task) → get_elem? c.tasks i ≡ some t → Named c.files i t

-- A task may change its status and its start time.
pub update-Valid :
    (c : Coordinator) (i : ℕ) (t u : Task) (count : ℕ)
    → get_elem? c.tasks i ≡ some t
    → (u.task_id ≡ t.task_id)
      × (u.task_type ≡ t.task_type)
      × (u.n_reduce ≡ t.n_reduce)
      × (u.file_name ≡ t.file_name)
    → Valid c
    → Valid (record c { tasks = set c.tasks i u; reduce_count = count })
update-Valid c i t u count there same v = record {
  size = omega (arith, length-set c.tasks i u, v.size);
  file_count = v.file_count;
  placed = λ j x h. elim (get_elem?-set_inv c.tasks i j u h) [
    | inl (e, f) ↦
        let p = v.placed i t there in
        record {
          id = cc (same.0, p.id);
          buckets = cc (same.2, p.buckets);
          kind = ground (arith, p.kind);
        }
    | inr (_, g) ↦ v.placed j x g
  ];
  named = λ j x h. elim (get_elem?-set_inv c.tasks i j u h) [
    | inl (e, f) ↦ ground (arith, v.named i t there)
    | inr (_, g) ↦ v.named j x g
  ];
}

expire-Placed :
    {n_map n_reduce : ℕ} (now i : ℕ) (u t : Task)
    → t ≡ expire now u
    → Placed n_map n_reduce i u
    → Placed n_map n_reduce i t
unfolding expire
expire-Placed now i u t e p = record {
  id = ground (arith, p.id);
  buckets = ground (arith, p.buckets);
  kind = ground (arith, p.kind);
}

expire-Named :
    (files : List String) (now i : ℕ) (u t : Task)
    → t ≡ expire now u
    → Named files i u
    → Named files i t
unfolding expire
expire-Named files now i u t e h = ground arith

pub check_timeout-Valid : (now : ℕ) (c : Coordinator) → Valid c → Valid (check_timeout now c)
unfolding check_timeout expire
check_timeout-Valid now c v = record {
  size = omega (arith, length-map c.tasks (expire now), v.size);
  file_count = v.file_count;
  placed = λ i t h.
      let (u, there, e) = get_elem?-map_inv (expire now) c.tasks i h in
      expire-Placed now i u t e (v.placed i u there);
  named = λ i t h.
      let (u, there, e) = get_elem?-map_inv (expire now) c.tasks i h in
      expire-Named c.files now i u t e (v.named i u there);
}

Served-Valid :
    {now : ℕ} {c c' : Coordinator} {r : GetTaskReply} → Served c now c' r → Valid c → Valid c'
unfolding start_task
Served-Valid {now} {c} (handed_map i t there _ _) v =
    update-Valid c i t (start_task now t) c.reduce_count there (refl, refl, refl, refl) v
Served-Valid {now} {c} (handed_reduce i t _ _ there _ _) v =
    update-Valid c i t (start_task now t) (c.reduce_count + 1) there (refl, refl, refl, refl) v
Served-Valid (waits _ _) v = v
Served-Valid (finished _ _ _ _) v = v

-- GetTask keeps the invariant.
pub get_task-Valid :
    (curr_time now : ℕ) (c : Coordinator) (reply : GetTaskReply) {c' : Coordinator}
    {r : GetTaskReply}
    → Valid c
    → get_task curr_time now c reply ≡ some (c', r)
    → Valid c'
get_task-Valid curr_time now c reply v h =
    Served-Valid (Served_of_get_task curr_time now c reply h) (check_timeout-Valid curr_time c v)

-- The search of ReportTask finds the task at its id.
pub task_by_id_lem :
    (i d : ℕ) (ts : List Task)
    → ((j : ℕ) (t : Task) → get_elem? ts j ≡ some t → t.task_id ≡ i + j)
    → task_by_id i ts (i + d) ≡ (if ltb d (length ts) then some (i + d) else none)
unfolding task_by_id
task_by_id_lem i d [] h = ground arith
task_by_id_lem i zero (t ∷ ts) h = ground (arith, h 0 t refl)
task_by_id_lem i (suc d) (t ∷ ts) h =
    ground (arith, h 0 t refl, task_by_id_lem (i + 1) d ts (λ j u e. omega (arith, h (suc j) u e)))
