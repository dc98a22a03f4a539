-- ===== src/Raft/Rfsrv/Agreement.antt =====
-- What the checks of src/raft1/test.go guarantee of the logs that they have let pass.
use mit_6_5824_lab.Prelude.{
  ltb, ◌==◌, if◌then◌else◌, Bool-cases, Option-cases, get_elem?, set, get_elem?-set_inv, lookup,
  insert, lookup-insert, ℕ, zero, suc, ◌+◌, ◌-◌, ◌≤◌, ◌<◌, ◌≡◌, refl, ◌≢◌, ◌⊎◌, inl, inr, true,
  false, not, ◌&&◌, Option, none, some, List, [], ◌∷◌, arith, nat_eq,
}
use mathlib.Core.Path.{subst}
use mit_6_5824_lab.Raft.Rfsrv.{
  Any, same_any, Rfsrv, ApplyMsg, Test, logs_at, fresh_srvs, make_test, conflicts, has_prev,
  check_logs, apply_one,
}

same_any_eq : (v w : Any) → same_any v w ≡ true → v ≡ w
same_any_eq none none h = refl
same_any_eq none (some w) h = cc
same_any_eq (some v) none h = cc
same_any_eq (some v) (some w) h = ground arith

pub same_any_refl : (v : Any) → same_any v v ≡ true
same_any_refl none = refl
same_any_refl (some v) = ground arith

-- No two servers have different values at an index, no server has an entry without the one before
-- it, no index is above `max_index`, and no server has an error.
pub record Agrees (ts : Test) : Type 0 where
  pub same :
      (i j index : ℕ) (a b : Rfsrv) (v w : Any)
      → get_elem? ts.srvs i ≡ some a
      → get_elem? ts.srvs j ≡ some b
      → logs_at index a ≡ some v
      → logs_at index b ≡ some w
      → v ≡ w
  pub contiguous :
      (i index : ℕ) (a : Rfsrv) (v : Any)
      → get_elem? ts.srvs i ≡ some a
      → logs_at index a ≡ some v
      → 1 < index
      → has_prev index a ≡ true
  pub bounded :
      (i index : ℕ) (a : Rfsrv) (v : Any)
      → get_elem? ts.srvs i ≡ some a
      → logs_at index a ≡ some v
      → index ≤ ts.max_index
  pub quiet : (i : ℕ) (a : Rfsrv) → get_elem? ts.srvs i ≡ some a → a.apply_err ≡ false

no_conflict :
    (index : ℕ) (v : Any) (srvs : List Rfsrv) (j : ℕ) (b : Rfsrv) (w : Any)
    → conflicts index v srvs ≡ false
    → get_elem? srvs j ≡ some b
    → logs_at index b ≡ some w
    → w ≡ v
unfolding conflicts
no_conflict index v [] j b w h there held = cc
no_conflict index v (rs ∷ srvs) zero b w h there held = ground (arith, same_any_eq w v)
no_conflict index v (rs ∷ srvs) (suc j) b w h there held =
    no_conflict index v srvs j b w (ground arith) there held

a_conflict :
    (index : ℕ) (v : Any) (srvs : List Rfsrv)
    → conflicts index v srvs ≡ true
    → (j : ℕ) × (b : Rfsrv) × (w : Any) × (get_elem? srvs j ≡ some b)
      × (logs_at index b ≡ some w)
      × (same_any w v ≡ false)
unfolding conflicts
a_conflict index v [] h = cc
a_conflict index v (rs ∷ srvs) h = elim (Option-cases (logs_at index rs)) [
  | inl missing ↦
      let (j, b, w, there, held, differ) = a_conflict index v srvs (ground arith) in
      (suc j, b, w, there, held, differ)
  | inr (old, held) ↦ elim (Bool-cases (same_any old v)) [
    | inl alike ↦
        let (j, b, w, there, held', differ) = a_conflict index v srvs (ground arith) in
        (suc j, b, w, there, held', differ)
    | inr differ ↦ (zero, rs, old, refl, held, differ)
  ]
]

logs_at-insert :
    (index at : ℕ) (v : Any) (rs : Rfsrv)
    → logs_at index (record rs { logs = insert at v rs.logs })
      ≡ (if at == index then some v else logs_at index rs)
unfolding logs_at
logs_at-insert index at v rs = lookup-insert at index v rs.logs

has_prev-insert :
    (index at : ℕ) (v : Any) (rs : Rfsrv)
    → has_prev index rs ≡ true
    → has_prev index (record rs { logs = insert at v rs.logs }) ≡ true
unfolding has_prev
has_prev-insert index at v rs h = ground (arith, logs_at-insert (index - 1) at v rs)

-- The test after a message that passes.
abbrev passed : ℕ → ApplyMsg → Test → Rfsrv → Test
passed i m ts me = record {
  srvs = set ts.srvs i (record me { logs = insert m.command_index m.command me.logs });
  max_index = if ltb ts.max_index m.command_index then m.command_index else ts.max_index;
}

module _ (i : ℕ) (m : ApplyMsg) (ts : Test) (me : Rfsrv) (here : get_elem? ts.srvs i ≡ some me)
    (fits : conflicts m.command_index m.command ts.srvs ≡ false)
    (follows : (ltb 1 m.command_index && not (has_prev m.command_index me)) ≡ false)
    (h : Agrees ts) where
  abbrev me' : Rfsrv
  me' = record me { logs = insert m.command_index m.command me.logs }

  -- An entry after the message is the message's, or stood there before.
  entry_from :
      (k index : ℕ) (a : Rfsrv) (v : Any)
      → get_elem? (set ts.srvs i me') k ≡ some a
      → logs_at index a ≡ some v
      → ((index ≡ m.command_index) × (v ≡ m.command))
        ⊎ ((b : Rfsrv) × (get_elem? ts.srvs k ≡ some b) × (logs_at index b ≡ some v))
  unfolding logs_at
  entry_from k index a v there held = elim (get_elem?-set_inv ts.srvs i k me' there) [
    | inr (_, old) ↦ inr (a, old, held)
    | inl (e, f) ↦ elim (Bool-cases (m.command_index == index)) [
      | inl at ↦
          inl (ground arith, ground (arith, lookup-insert m.command_index index m.command me.logs))
      | inr off ↦
          inr (
            me,
            ground arith,
            ground (arith, lookup-insert m.command_index index m.command me.logs),
          )
    ]
  ]

  passed-Agrees : Agrees (passed i m ts me)
  passed-Agrees = record {
    same = λ k l index a b v w ha hb hv hw. elim (entry_from k index a v ha hv) [
      | inl (at, e) ↦ elim (entry_from l index b w hb hw) [
        | inl (at', e') ↦ cc
        | inr (b', there, held) ↦
            let f =
              no_conflict m.command_index m.command ts.srvs l b' w fits there (rw at at held) in
            cc
      ]
      | inr (a', there, held) ↦ elim (entry_from l index b w hb hw) [
        | inl (at, e) ↦
            let f =
              no_conflict m.command_index m.command ts.srvs k a' v fits there (rw at at held) in
            cc
        | inr (b', there', held') ↦ h.same k l index a' b' v w there there' held held'
      ]
    ];
    contiguous = λ k index a v ha hv lt. elim (get_elem?-set_inv ts.srvs i k me' ha) [
      | inr (_, old) ↦ h.contiguous k index a v old hv lt
      | inl (e, f) ↦ elim (Bool-cases (m.command_index == index)) [
        | inl at ↦ ground (arith, has_prev-insert index m.command_index m.command me)
        | inr off ↦
            let held : logs_at index me ≡ some v =
              ground (arith, logs_at-insert index m.command_index m.command me) in
            ground (
              arith,
              h.contiguous i index me v here held lt,
              has_prev-insert index m.command_index m.command me,
            )
      ]
    ];
    bounded = λ k index a v ha hv. elim (entry_from k index a v ha hv) [
      | inl (at, e) ↦ ground arith
      | inr (b, there, held) ↦ ground (arith, h.bounded k index b v there held)
    ];
    quiet = λ k a ha. elim (get_elem?-set_inv ts.srvs i k me' ha) [
      | inl (e, f) ↦ ground (arith, h.quiet i me here)
      | inr (_, old) ↦ h.quiet k a old
    ];
  }

-- Why a message ends the test.
abbrev pub Rejects : ℕ → ApplyMsg → Test → Type 0
Rejects i m ts =
    (m.command_valid ≡ true)
    × ((get_elem? ts.srvs i ≡ none)
        ⊎ ((me : Rfsrv) × (get_elem? ts.srvs i ≡ some me)
            × (1 < m.command_index)
            × (has_prev m.command_index me ≡ false))
        ⊎ ((j : ℕ) × (b : Rfsrv) × (w : Any) × (get_elem? ts.srvs j ≡ some b)
            × (logs_at m.command_index b ≡ some w)
            × (w ≢ m.command)))

-- There are no false alarms: a message that ends the test is a command for a server that is not there,
-- or one at an index after the first for a server without the entry before it, or one for which some
-- server has another value at the index.
pub apply_one-none : (i : ℕ) (m : ApplyMsg) (ts : Test) → apply_one i m ts ≡ none → Rejects i m ts
unfolding apply_one check_logs
apply_one-none i m ts h = elim (Bool-cases m.command_valid) [
  | inr skip ↦ absurd (ground arith)
  | inl valid ↦ (
    valid,
    elim (Option-cases (get_elem? ts.srvs i)) [
      | inl missing ↦ inl missing
      | inr (me, here) ↦ elim (Bool-cases (conflicts m.command_index m.command ts.srvs)) [
        | inl clash ↦
            let (j, b, w, there, held, differ) =
              a_conflict m.command_index m.command ts.srvs clash in
            inr (inr (j, b, w, there, held, λ e. ground (arith, same_any_refl w)))
        | inr fits ↦ inr (inl (me, here, ground arith, ground arith))
      ]
    ],
  )
]

apply_one-Agrees :
    (i : ℕ) (m : ApplyMsg) (ts : Test) {ts' : Test}
    → Agrees ts
    → apply_one i m ts ≡ some ts'
    → Agrees ts'
unfolding apply_one check_logs
apply_one-Agrees i m ts {ts'} h run = elim (Option-cases (get_elem? ts.srvs i)) [
  | inl missing ↦ subst Agrees (ground arith) h
  | inr (me, here) ↦ elim (Bool-cases m.command_valid) [
    | inr skip ↦ subst Agrees (ground arith) h
    | inl valid ↦
        let kept = passed-Agrees i m ts me here (ground arith) (ground arith) h in
        subst Agrees (ground arith) kept
  ]
]

fresh-no_logs :
    (i n k index : ℕ) (a : Rfsrv)
    → get_elem? (fresh_srvs i n) k ≡ some a
    → (logs_at index a ≡ none) × (a.apply_err ≡ false)
unfolding fresh_srvs logs_at lookup
fresh-no_logs i zero k index a h = cc
fresh-no_logs i (suc n) zero index a h = ground arith
fresh-no_logs i (suc n) (suc k) index a h = fresh-no_logs (i + 1) n k index a h

pub make_test-Agrees : (n : ℕ) → Agrees (make_test n)
unfolding make_test
make_test-Agrees n = record {
  same = λ i j index a b v w ha hb hv hw. let none_there = fresh-no_logs 0 n i index a ha in cc;
  contiguous = λ i index a v ha hv lt. let none_there = fresh-no_logs 0 n i index a ha in cc;
  bounded =
      λ i index a v ha hv. let none_there = fresh-no_logs 0 n i index a ha in absurd (ground arith);
  quiet = λ i a ha. (fresh-no_logs 0 n i 0 a ha).1;
}

-- The messages that reach the test one after another, each with its server.
unfoldable pub apply_all : List (ℕ × ApplyMsg) → Test → Option Test
apply_all [] ts = some ts
apply_all ((i, m) ∷ ms) ts = elim (apply_one i m ts) [ none ↦ none | some ts' ↦ apply_all ms ts' ]

pub apply_all-Agrees :
    (ms : List (ℕ × ApplyMsg)) (ts : Test) {ts' : Test}
    → Agrees ts
    → apply_all ms ts ≡ some ts'
    → Agrees ts'
unfolding apply_all
apply_all-Agrees [] ts {ts'} h run = subst Agrees (ground arith) h
apply_all-Agrees ((i, m) ∷ ms) ts {ts'} h run = elim (Option-cases (apply_one i m ts)) [
  | inl ended ↦ absurd (ground arith)
  | inr (ts1, e) ↦
      apply_all-Agrees ms ts1 {ts' = ts'} (apply_one-Agrees i m ts {ts' = ts1} h e) (ground arith)
]

-- If a test that starts with `n` servers has let messages to them pass, whatever they are, then no two
-- servers have different values at an index, each has with an entry after the first also the one
-- before it, `max_index` bounds all indexes, and no server has an error.
pub make_test-apply_all-Agrees :
    (ms : List (ℕ × ApplyMsg)) (n : ℕ) {ts : Test}
    → apply_all ms (make_test n) ≡ some ts
    → Agrees ts
make_test-apply_all-Agrees ms n {ts} run =
    apply_all-Agrees ms (make_test n) {ts' = ts} (make_test-Agrees n) run
