-- ===== src/Mr/Coordinator/Answers.antt =====
-- What GetTask of src/mr/coordinator.go answers and how it changes the state, on every branch.
use mathlib.Core.Path.{subst₂}
use mit_6_5824_lab.Prelude.{
  Bool-cases, length, get_elem?, set, ℕ, ◌+◌, ◌≡◌, ◌⊎◌, inl, inr, true, false, Option, some, [],
  arith,
}
use mit_6_5824_lab.Mr.Coordinator.{
  wait_task, finished_task, Task, new_task, Coordinator, GetTaskReply, fresh_reply, is_map,
  is_reduce, is_idle, check_timeout, get_map_task, get_reduce_task, start_task, update_task,
  choose_task, get_task, done,
}
use mit_6_5824_lab.Mr.Coordinator.Scan.{
  any_idle, any_in_progress, verdict, scan_status, scan_pointer,
}

-- `Served c now c' reply`: from the state `c`, in which timeouts have been applied, the request is
-- answered by `reply` and leaves `c'`.
pub data Served (c : Coordinator) (now : ℕ) : Coordinator → GetTaskReply → Type 0 where
  handed_map :
      (i : ℕ) (t : Task)
      → get_elem? c.tasks i ≡ some t
      → is_map t.task_type ≡ true
      → is_idle t.status ≡ true
      → Served c now
          (record c { tasks = set c.tasks i (start_task now t) })
          (record fresh_reply { task_info = start_task now t })
  handed_reduce :
      (i : ℕ) (t : Task)
      → any_idle is_map c.tasks ≡ false
      → any_in_progress is_map c.tasks ≡ false
      → get_elem? c.tasks i ≡ some t
      → is_reduce t.task_type ≡ true
      → is_idle t.status ≡ true
      → Served c now
          (record c { tasks = set c.tasks i (start_task now t); reduce_count = c.reduce_count + 1 })
          (record {
            task_info = start_task now t;
            bucket_num = c.reduce_count;
            map_num = length c.files;
          })
  waits :
      any_idle is_map c.tasks ≡ false
      → (any_in_progress is_map c.tasks ≡ true)
        ⊎ ((any_idle is_reduce c.tasks ≡ false) × (any_in_progress is_reduce c.tasks ≡ true))
      → Served c now c (record fresh_reply { task_info = new_task wait_task })
  finished :
      any_idle is_map c.tasks ≡ false
      → any_in_progress is_map c.tasks ≡ false
      → any_idle is_reduce c.tasks ≡ false
      → any_in_progress is_reduce c.tasks ≡ false
      → Served c now c (record fresh_reply { task_info = new_task finished_task })

abbrev Answer : ℕ → Coordinator → Option (Coordinator × GetTaskReply) → Type 0
Answer now c result =
    (c' : Coordinator) × (r : GetTaskReply) × (result ≡ some (c', r)) × Served c now c' r

module _ (now : ℕ) (c : Coordinator) (reply : GetTaskReply) where
  abbrev chosen : Option (Coordinator × GetTaskReply)
  chosen = choose_task now c reply (get_map_task c) (get_reduce_task c)

  map_scan : (get_map_task c).0 ≡ verdict (any_idle is_map c.tasks) (any_in_progress is_map c.tasks)
  unfolding get_map_task
  map_scan = ground (arith, scan_status is_map 0 [] c.tasks)

  reduce_scan :
      (get_reduce_task c).0
      ≡ verdict (any_idle is_reduce c.tasks) (any_in_progress is_reduce c.tasks)
  unfolding get_reduce_task
  reduce_scan = ground (arith, scan_status is_reduce 0 [] c.tasks)

  map-Answer : any_idle is_map c.tasks ≡ true → Answer now c chosen
  unfolding choose_task update_task get_map_task
  map-Answer h =
      let (d, e, p) = scan_pointer is_map 0 [] c.tasks h in
      (_, _, ground (arith, map_scan, p.there), handed_map d p.task p.there p.of_type p.is_free)

  reduce-Answer :
      any_idle is_map c.tasks ≡ false
      → any_in_progress is_map c.tasks ≡ false
      → any_idle is_reduce c.tasks ≡ true
      → Answer now c chosen
  unfolding choose_task update_task get_reduce_task
  reduce-Answer no_map done h =
      let (d, e, p) = scan_pointer is_reduce 0 [] c.tasks h in
      (
        _,
        _,
        ground (arith, map_scan, reduce_scan, p.there),
        handed_reduce d p.task no_map done p.there p.of_type p.is_free,
      )

  wait_answer :
      any_idle is_map c.tasks ≡ false
      → (any_in_progress is_map c.tasks ≡ true)
        ⊎ ((any_in_progress is_map c.tasks ≡ false)
            × (any_idle is_reduce c.tasks ≡ false)
            × (any_in_progress is_reduce c.tasks ≡ true))
      → chosen ≡ some (c, record fresh_reply { task_info = new_task wait_task })
  unfolding choose_task
  wait_answer no_map h = ground (arith, map_scan, reduce_scan)

  finish_answer :
      any_idle is_map c.tasks ≡ false
      → any_in_progress is_map c.tasks ≡ false
      → any_idle is_reduce c.tasks ≡ false
      → any_in_progress is_reduce c.tasks ≡ false
      → chosen ≡ some (c, record fresh_reply { task_info = new_task finished_task })
  unfolding choose_task
  finish_answer a b d e = ground (arith, map_scan, reduce_scan)

  answer : Answer now c chosen
  answer = elim (Bool-cases (any_idle is_map c.tasks)) [
    | inl h ↦ map-Answer h
    | inr no_map ↦ elim (Bool-cases (any_in_progress is_map c.tasks)) [
      | inl busy ↦ (_, _, wait_answer no_map (inl busy), waits no_map (inl busy))
      | inr maps_done ↦ elim (Bool-cases (any_idle is_reduce c.tasks)) [
        | inl h ↦ reduce-Answer no_map maps_done h
        | inr no_reduce ↦ elim (Bool-cases (any_in_progress is_reduce c.tasks)) [
          | inl busy ↦ (
            _,
            _,
            wait_answer no_map (inr (maps_done, no_reduce, busy)),
            waits no_map (inr (no_reduce, busy)),
          )
          | inr all_done ↦ (
            _,
            _,
            finish_answer no_map maps_done no_reduce all_done,
            finished no_map maps_done no_reduce all_done,
          )
        ]
      ]
    ]
  ]

-- GetTask always answers, at any times and from any state: it applies the timeouts, and then hands
-- out an idle map task if there is one, else a waiting reply while a map task is in progress, else
-- an idle reduce task with the next bucket number, else a waiting reply while a reduce task is in
-- progress, else a finished reply. The task handed out is stored as in progress since `now`, and
-- nothing else changes.
pub get_task-Served :
    (curr_time now : ℕ) (c : Coordinator) (reply : GetTaskReply)
    → (c' : Coordinator) × (r : GetTaskReply) × (get_task curr_time now c reply ≡ some (c', r))
      × Served (check_timeout curr_time c) now c' r
unfolding get_task
get_task-Served curr_time now c reply = answer now (check_timeout curr_time c) reply

-- The same, for an answer that is at hand.
pub Served_of_get_task :
    (curr_time now : ℕ) (c : Coordinator) (reply : GetTaskReply) {c' : Coordinator}
    {r : GetTaskReply}
    → get_task curr_time now c reply ≡ some (c', r)
    → Served (check_timeout curr_time c) now c' r
Served_of_get_task curr_time now c reply {c'} {r} h =
    let (next, r', e, served) = get_task-Served curr_time now c reply in
    let same_state : next ≡ c' = cc in
    let same_reply : r' ≡ r = cc in
    subst₂ (Served (check_timeout curr_time c) now) same_state same_reply served
