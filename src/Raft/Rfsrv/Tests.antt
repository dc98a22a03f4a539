-- ===== src/Raft/Rfsrv/Tests.antt =====
-- Runs of the checks of src/raft1/test.go and src/raft1/server.go.
use mit_6_5824_lab.Prelude.{
  leb, if◌then◌else◌, get_elem?, lookup, insert, Dict, ℕ, zero, suc, ◌+◌, ◌≡◌, refl, true, false,
  Option, none, some, List, [], ◌∷◌, map, arith,
}
use mit_6_5824_lab.Raft.Rfsrv.Leaders.{
  Seen, add_leader, collect_leaders, last_term, leader_round, check_one_leader,
}
use mit_6_5824_lab.Raft.Rfsrv.Leaders.Unique.{SoleLeader, check_one_leader-SoleLeader}
use mit_6_5824_lab.Raft.Rfsrv.{
  Any, Rfsrv, ApplyMsg, Test, logs_at, make_test, check_logs, apply_one, make_snapshot, ingest_snap,
}
use mit_6_5824_lab.Raft.Rfsrv.Agreement.{
  Agrees, Rejects, apply_one-none, apply_all, make_test-apply_all-Agrees,
}
use mit_6_5824_lab.Raft.Rfsrv.Snapshots.{entry_at, ingest-make_snapshot}

abbrev command_at : ℕ → ℕ → ApplyMsg
command_at index v = record {
  command_valid = true;
  command = some v;
  command_index = index;
  snapshot_valid = false;
  snapshot = [];
  snapshot_index = 0;
}

abbrev a_srv : ℕ → Dict ℕ Any → Rfsrv
a_srv i logs = record { me = i; apply_err = false; last_applied = 0; logs = logs }

-- Both servers have committed 7 at index 1.
abbrev after_both : Test
after_both = record {
  srvs = a_srv 0 ((1, some 7) ∷ []) ∷ a_srv 1 ((1, some 7) ∷ []) ∷ [];
  max_index = 1;
}

abbrev messages : List (ℕ × ApplyMsg)
messages = (0, command_at 1 7) ∷ (1, command_at 1 7) ∷ []

both_apply : apply_all messages (make_test 2) ≡ some after_both
unfolding apply_all make_test apply_one check_logs lookup insert
both_apply = refl

-- The second server commits another value.
clash : apply_all ((0, command_at 1 7) ∷ (1, command_at 1 8) ∷ []) (make_test 2) ≡ none
unfolding apply_all make_test apply_one check_logs lookup insert
clash = refl

one_clash : apply_one 1 (command_at 1 8) after_both ≡ none
unfolding apply_one check_logs lookup
one_clash = refl

make_test-apply_all-Agrees_example : Agrees after_both
make_test-apply_all-Agrees_example = make_test-apply_all-Agrees messages 2 both_apply

apply_one-none_example : Rejects 1 (command_at 1 8) after_both
apply_one-none_example = apply_one-none 1 (command_at 1 8) after_both one_clash

-- A code for snapshots of which all entries are numbers; it is enough for one snapshot.
abbrev enc_any : Any → ℕ
enc_any none = 0
enc_any (some v) = v + 1

abbrev enc_all : ℕ × List Any → List ℕ
enc_all (index, xlog) = index ∷ map enc_any xlog

abbrev dec_any : ℕ → Any
dec_any zero = none
dec_any (suc v) = some v

abbrev dec_all : List ℕ → Option (ℕ × List Any)
dec_all [] = none
dec_all (index ∷ codes) = some (index, map dec_any codes)

dec-enc_any : (v : Any) → dec_any (enc_any v) ≡ v
dec-enc_any none = refl
dec-enc_any (some v) = ground arith

dec-enc_map : (xlog : List Any) → map dec_any (map enc_any xlog) ≡ xlog
dec-enc_map [] = refl
dec-enc_map (v ∷ xlog) = ground (arith, dec-enc_any v, dec-enc_map xlog)

dec-enc_all : (x : ℕ × List Any) → dec_all (enc_all x) ≡ some x
dec-enc_all (index, xlog) = ground (arith, dec-enc_map xlog)

ingest-make_snapshot_example :
    (rs' : Rfsrv) × (ingest_snap dec_all
        (make_snapshot enc_all 1 (a_srv 0 ((1, some 7) ∷ [])))
        (some 1)
        (a_srv 1 [])
      ≡ some (rs', false))
    × (rs'.last_applied ≡ 1)
    × ((j : ℕ)
        → logs_at j rs'
          ≡ (if leb j 1 then some (entry_at j (a_srv 0 ((1, some 7) ∷ []))) else none))
ingest-make_snapshot_example =
    ingest-make_snapshot enc_all dec_all 1 (a_srv 0 ((1, some 7) ∷ [])) (a_srv 1 []) dec-enc_all

abbrev three_seen : List Seen
three_seen = some (4, false) ∷ none ∷ some (4, true) ∷ []

one_leader : check_one_leader ((none ∷ []) ∷ three_seen ∷ []) ≡ some 2
unfolding check_one_leader leader_round collect_leaders add_leader last_term lookup insert
one_leader = refl

abbrev two_terms : List Seen
two_terms = some (3, true) ∷ none ∷ some (4, true) ∷ []

later_leader : check_one_leader ((none ∷ []) ∷ two_terms ∷ []) ≡ some 2
unfolding check_one_leader leader_round collect_leaders add_leader last_term lookup insert
later_leader = refl

check_one_leader-SoleLeader_example :
    (n : ℕ) × (seen : List Seen) × (get_elem? ((none ∷ []) ∷ two_terms ∷ []) n ≡ some seen)
    × SoleLeader 2 seen
check_one_leader-SoleLeader_example =
    check_one_leader-SoleLeader ((none ∷ []) ∷ two_terms ∷ []) 2 later_leader
