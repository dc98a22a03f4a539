-- ===== src/Mr/Coordinator/Scan.antt =====
-- What GetTask of src/mr/coordinator.go answers, on every branch.
use mit_6_5824_lab.Prelude.{
  if◌then◌else◌, Bool-cases, get_elem?, ℕ, suc, ◌+◌, ◌≡◌, refl, inl, inr, Bool, true, false, not,
  ◌&&◌, ◌||◌, some, List, [], ◌∷◌, ◌++◌, arith,
}
use mit_6_5824_lab.Mr.Coordinator.{
  TaskType, Status, idle, in_progress, completed, Task, is_idle, is_in_progress, scan,
}

-- Some task of the wanted type is idle; is in progress.
unfoldable pub any_idle : (TaskType → Bool) → List Task → Bool
any_idle wanted [] = false
any_idle wanted (t ∷ ts) = (wanted t.task_type && is_idle t.status) || any_idle wanted ts

unfoldable pub any_in_progress : (TaskType → Bool) → List Task → Bool
any_in_progress wanted [] = false
any_in_progress wanted (t ∷ ts) =
    (wanted t.task_type && is_in_progress t.status) || any_in_progress wanted ts

abbrev pub is_nil : List ℕ → Bool
is_nil [] = true
is_nil (_ ∷ _) = false

is_nil-snoc : (xs : List ℕ) (x : ℕ) → is_nil (xs ++ x ∷ []) ≡ false
is_nil-snoc [] x = refl
is_nil-snoc (y ∷ xs) x = refl

abbrev pub verdict : Bool → Bool → Status
verdict idles busy = if idles then idle else if busy then in_progress else completed

pub scan_status :
    (wanted : TaskType → Bool) (i : ℕ) (progress : List ℕ) (ts : List Task)
    → (scan wanted i progress ts).0
      ≡ verdict (any_idle wanted ts) (any_in_progress wanted ts || not (is_nil progress))
unfolding scan any_idle any_in_progress
scan_status wanted i [] [] = refl
scan_status wanted i (p ∷ progress) [] = refl
scan_status wanted i progress (t ∷ ts) = ground (
  arith,
  scan_status wanted (i + 1) progress ts,
  scan_status wanted (i + 1) (progress ++ i ∷ []) ts,
  is_nil-snoc progress i,
)

-- The task that a scan with verdict `idle` points to.
pub record Pointed (wanted : TaskType → Bool) (ts : List Task) (d : ℕ) : Type 0 where
  pub task : Task
  pub there : get_elem? ts d ≡ some task
  pub of_type : wanted task.task_type ≡ true
  pub is_free : is_idle task.status ≡ true

Pointed-cons :
    (wanted : TaskType → Bool) (t : Task) (ts : List Task) (d : ℕ)
    → Pointed wanted ts d
    → Pointed wanted (t ∷ ts) (suc d)
Pointed-cons wanted t ts d p = record {
  task = p.task;
  there = p.there;
  of_type = p.of_type;
  is_free = p.is_free;
}

pub scan_pointer :
    (wanted : TaskType → Bool) (i : ℕ) (progress : List ℕ) (ts : List Task)
    → any_idle wanted ts ≡ true
    → (d : ℕ) × ((scan wanted i progress ts).1 ≡ some (i + d)) × Pointed wanted ts d
unfolding scan any_idle
scan_pointer wanted i progress [] h = cc
scan_pointer wanted i progress (t ∷ ts) h =
    elim (Bool-cases (wanted t.task_type && is_idle t.status)) [
      | inl here ↦ (
        0,
        ground arith,
        record { task = t; there = refl; of_type = ground arith; is_free = ground arith },
      )
      | inr later ↦ elim (Bool-cases (wanted t.task_type && is_in_progress t.status)) [
        | inl busy ↦
            let (d, e, p) = scan_pointer wanted (i + 1) (progress ++ i ∷ []) ts (ground arith) in
            (suc d, ground arith, Pointed-cons wanted t ts d p)
        | inr other ↦
            let (d, e, p) = scan_pointer wanted (i + 1) progress ts (ground arith) in
            (suc d, ground arith, Pointed-cons wanted t ts d p)
      ]
    ]
