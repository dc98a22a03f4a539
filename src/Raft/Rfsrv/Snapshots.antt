-- ===== src/Raft/Rfsrv/Snapshots.antt =====
-- The snapshots of src/raft1/server.go: what ingestSnap makes of one that applierSnap has made.
use mit_6_5824_lab.Prelude.{
  ltb, leb, if◌then◌else◌, lookup, insert, Dict, lookup-insert, ℕ, zero, suc, ◌+◌, ◌≡◌, refl, false,
  ◌&&◌, Option, none, some, List, [], arith, nat_eq,
}
use mit_6_5824_lab.Raft.Rfsrv.{
  Any, Rfsrv, logs_at, xlog_from, make_snapshot, fill_logs, ingest_snap,
}

-- rs.logs[j], nil where there is no entry.
abbrev pub entry_at : ℕ → Rfsrv → Any
entry_at j rs = elim (logs_at j rs) [ none ↦ none | some v ↦ v ]

lookup-nil : (j : ℕ) → lookup j (let logs : Dict ℕ Any = [] in logs) ≡ none
unfolding lookup
lookup-nil j = refl

fill_logs-xlog_from :
    (i n j : ℕ) (rs : Rfsrv) (logs : Dict ℕ Any)
    → lookup j (fill_logs i (xlog_from i n rs) logs)
      ≡ (if leb i j && ltb j (i + n) then some (entry_at j rs) else lookup j logs)
unfolding fill_logs xlog_from
fill_logs-xlog_from i zero j rs logs = ground arith
fill_logs-xlog_from i (suc n) j rs logs = ground (
  arith,
  fill_logs-xlog_from (i + 1) n j rs (insert i (entry_at i rs) logs),
  lookup-insert i j (entry_at i rs) logs,
)

-- If decoding undoes encoding, a server that takes in the snapshot that another made after the
-- command at an index has that command as its last, has the other's entries up to the index, nil
-- where the other has none, and has no other entries.
pub ingest-make_snapshot :
    (enc : ℕ × List Any → List ℕ) (dec : List ℕ → Option (ℕ × List Any)) (index : ℕ)
    (rs other : Rfsrv)
    → ((x : ℕ × List Any) → dec (enc x) ≡ some x)
    → (rs' : Rfsrv) × (ingest_snap dec (make_snapshot enc index rs) (some index) other
        ≡ some (rs', false))
      × (rs'.last_applied ≡ index)
      × ((j : ℕ) → logs_at j rs' ≡ (if leb j index then some (entry_at j rs) else none))
unfolding ingest_snap make_snapshot logs_at
ingest-make_snapshot enc dec index rs other back = (
  record other { logs = fill_logs 0 (xlog_from 0 (index + 1) rs) []; last_applied = index },
  ground (arith, back (index, xlog_from 0 (index + 1) rs)),
  refl,
  λ j. ground (arith, fill_logs-xlog_from 0 (index + 1) j rs [], lookup-nil j),
)
