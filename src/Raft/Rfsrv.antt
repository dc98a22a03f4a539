-- ===== src/Raft/Rfsrv.antt =====
-- src/raft1/server.go and the checks of src/raft1/test.go: the servers of the Raft tests, which record what
-- each peer commits. A value of type `any`, as a command is, is a number or nil, which is `none`;
-- texts of errors are left out. `none` as a result is a panic or a call of Fatal, which ends the
-- test. `enc` and `dec` stand for the encoding of a snapshot by labgob.
pub mod Agreement
pub mod Counting
pub mod Snapshots
pub mod Leaders
mod Tests
use mit_6_5824_lab.Prelude.{
  ltb, ◌==◌, if◌then◌else◌, tests, get_elem?, set, lookup, insert, Dict, ℕ, zero, suc, ◌+◌, ◌-◌,
  ◌%◌, Bool, true, false, not, ◌&&◌, ◌||◌, Option, none, some, List, [], ◌∷◌, nat_eq,
}

abbrev pub Any : Type 0
Any = Option ℕ

-- v == w
abbrev pub same_any : Any → Any → Bool
same_any none none = true
same_any (some v) (some w) = v == w
same_any _ _ = false

pub record Rfsrv : Type 0 where
  pub me : ℕ
  pub apply_err : Bool
  pub last_applied : ℕ
  pub logs : Dict ℕ Any

-- ApplyMsg of src/raftapi/raftapi.go
pub record ApplyMsg : Type 0 where
  pub command_valid : Bool
  pub command : Any
  pub command_index : ℕ
  pub snapshot_valid : Bool
  pub snapshot : List ℕ
  pub snapshot_index : ℕ

-- Test, as far as the checks use it.
pub record Test : Type 0 where
  pub srvs : List Rfsrv
  pub max_index : ℕ

-- Logs
unfoldable pub logs_at : ℕ → Rfsrv → Option Any
logs_at i rs = lookup i rs.logs

-- makeTest and newRfsrv, for server `i` and those after it: no server has applied anything.
unfoldable pub fresh_srvs : ℕ → ℕ → List Rfsrv
fresh_srvs i zero = []
fresh_srvs i (suc n) =
    record { me = i; apply_err = false; last_applied = 0; logs = [] } ∷ fresh_srvs (i + 1) n

unfoldable pub make_test : ℕ → Test
unfolding fresh_srvs
make_test n = record { srvs = fresh_srvs 0 n; max_index = 0 }

-- The loop of checkLogs: whether some server has committed another value at the index.
unfoldable pub conflicts : ℕ → Any → List Rfsrv → Bool
unfolding logs_at
conflicts index v [] = false
conflicts index v (rs ∷ srvs) =
    let rest = conflicts index v srvs in
    elim (logs_at index rs) [ none ↦ rest | some old ↦ not (same_any old v) || rest ]

-- me.logs[m.CommandIndex-1]: there is no entry at -1.
unfoldable pub has_prev : ℕ → Rfsrv → Bool
unfolding logs_at
has_prev index rs =
    if index == 0 then false else elim (logs_at (index - 1) rs) [ none ↦ false | some _ ↦ true ]

-- checkLogs: whether there is an error, and `prevok`.
unfoldable pub check_logs : ℕ → ApplyMsg → Test → Option (Test × Bool × Bool)
unfolding conflicts has_prev
check_logs i m ts = elim (get_elem? ts.srvs i) [
  | none ↦ none
  | some me ↦ some (
    record {
      srvs = set ts.srvs i (record me { logs = insert m.command_index m.command me.logs });
      max_index = if ltb ts.max_index m.command_index then m.command_index else ts.max_index;
    },
    conflicts m.command_index m.command ts.srvs,
    has_prev m.command_index me,
  )
]

-- applier, for one message to server `i`; log.Fatalf ends the test.
unfoldable pub apply_one : ℕ → ApplyMsg → Test → Option Test
unfolding check_logs
apply_one i m ts = if not m.command_valid then some ts else (elim (check_logs i m ts) [
  | none ↦ none
  | some (ts', err, prevok) ↦
      if (ltb 1 m.command_index && not prevok) || err then none else some ts'
])

-- nCommitted: the loop, with `count` and `cmd`.
unfoldable pub committed_loop : ℕ → ℕ → Any → List Rfsrv → Option (ℕ × Any)
unfolding logs_at
committed_loop index count cmd [] = some (count, cmd)
committed_loop index count cmd (rs ∷ srvs) =
    if rs.apply_err then none else (elim (logs_at index rs) [
      | none ↦ committed_loop index count cmd srvs
      | some cmd1 ↦
          let rest = committed_loop index (count + 1) cmd1 srvs in
          if ltb 0 count && not (same_any cmd cmd1) then none else rest
    ])

unfoldable pub n_committed : ℕ → Test → Option (ℕ × Any)
unfolding committed_loop
n_committed index ts = committed_loop index 0 none ts.srvs

-- checkNoAgreement: whether it passes.
unfoldable pub check_no_agreement : ℕ → Test → Bool
unfolding n_committed
check_no_agreement index ts = elim (n_committed index ts) [
  | none ↦ false
  | some (n, _) ↦ not (ltb 0 n)
]

-- The loop of applierSnap that collects the log: rs.logs[j] is nil where there is none.
unfoldable pub xlog_from : ℕ → ℕ → Rfsrv → List Any
unfolding logs_at
xlog_from j zero rs = []
xlog_from j (suc n) rs = elim (logs_at j rs) [ none ↦ none | some v ↦ v ] ∷ xlog_from (j + 1) n rs

-- The snapshot that applierSnap makes after the command at an index.
unfoldable pub make_snapshot : (ℕ × List Any → List ℕ) → ℕ → Rfsrv → List ℕ
unfolding xlog_from
make_snapshot enc index rs = enc (index, xlog_from 0 (index + 1) rs)

-- The loop of ingestSnap that fills the log.
unfoldable pub fill_logs : ℕ → List Any → Dict ℕ Any → Dict ℕ Any
fill_logs j [] logs = logs
fill_logs j (v ∷ xlog) logs = fill_logs (j + 1) xlog (insert j v logs)

-- ingestSnap: `index` is none for -1; an empty list of bytes is not nil. The Boolean says whether it
-- returns an error.
unfoldable pub ingest_snap :
    (List ℕ → Option (ℕ × List Any)) → List ℕ → Option ℕ → Rfsrv → Option (Rfsrv × Bool)
unfolding fill_logs
ingest_snap dec snapshot index rs = elim (dec snapshot) [
  | none ↦ none
  | some (last_included_index, xlog) ↦
      if elim index [ none ↦ false | some i ↦ not (i == last_included_index) ]
      then some (rs, true)
      else some
          (record rs { logs = fill_logs 0 xlog []; last_applied = last_included_index }, false)
]

-- applierSnap of a server that has a peer, for one message to server `i`; beside the test, the snapshot that it hands to Raft.
unfoldable pub apply_snap :
    (ℕ × List Any → List ℕ)
    → (List ℕ → Option (ℕ × List Any))
    → ℕ
    → ApplyMsg
    → Test
    → Option (Test × Option (List ℕ))
unfolding ingest_snap check_logs make_snapshot
apply_snap enc dec i m ts = elim (get_elem? ts.srvs i) [
  | none ↦ none
  | some rs ↦
      if m.snapshot_valid
      then (elim (ingest_snap dec m.snapshot (some m.snapshot_index) rs) [
        | none ↦ none
        | some (rs', err) ↦
            if err then none else some (record ts { srvs = set ts.srvs i rs' }, none)
      ])
      else if not m.command_valid
      then some (ts, none)
      else if not (m.command_index == rs.last_applied + 1)
      then none
      else (elim (check_logs i m ts) [
        | none ↦ none
        | some (ts', err, prevok) ↦
            if (ltb 1 m.command_index && not prevok) || err
            then none
            else (elim (get_elem? ts'.srvs i) [
              | none ↦ none
              | some rs' ↦
                  let last : Rfsrv = record rs' { last_applied = m.command_index } in
                  some (
                    record ts' { srvs = set ts'.srvs i last },
                    (if (m.command_index + 1) % 10 == 0
                        then some (make_snapshot enc m.command_index last)
                        else none),
                  )
            ])
      ])
]
