-- ===== src/Kvtest/Appends.antt =====
-- src/kvtest1/kvtest.go: clients that append to a list under one key, and the check of the list.
-- The clerk and the server are those of src/kvsrv1. `enc` and `dec` stand for json.Marshal and
-- json.Unmarshal of a list of entries; the types entry and EntryN, with the same fields, are one type.
-- `false` and `none` are Fatalf or a panic. One step of a client is one call of its clerk, so that
-- the calls of other clients come between any two of them.
pub mod Entries
pub mod Turns
pub mod Calls
pub mod Runs
pub mod Check
pub mod Results
mod Tests
use mit_6_5824_lab.Kvsrv.Clerk.Single.{one_turn}
use mit_6_5824_lab.Prelude.{
  ltb, ◌==◌, if◌then◌else◌, length, get_elem?, set, take, ◌>>=◌, lookup, insert, Dict, ℕ, zero, suc,
  ◌+◌, ◌-◌, String, Bool, true, false, not, ◌&&◌, Option, none, some, List, [], ◌∷◌, ◌++◌, map,
  nat_eq,
}
use mit_6_5824_lab.Kvsrv.Rpc.{Err, is_ok, is_maybe}
use mit_6_5824_lab.Kvsrv.Server.{KvServer, put}
use mit_6_5824_lab.Kvsrv.Clerk.{Fate, retrying, returned, fatal, put_loop}
use mit_6_5824_lab.Kvtest.Clients.{ClntRes, get_json}

pub record EntryN : Type 0 where
  pub id : ℕ
  pub n : ℕ

-- Where a client stands in OneClientAppend: before the select, in GetJson, or in PutJson of `es` at
-- version `ver` with the clerk's request count.
pub data Stage : Type 0 where
  waiting : Stage
  reading : Stage
  writing : List EntryN → ℕ → ℕ → Stage

-- A client: its stage, the loop's `i`, and its results.
pub record Appender : Type 0 where
  pub stage : Stage
  pub i : ℕ
  pub res : ClntRes

-- The put of OneClientAppend: after OK and ErrMaybe the next iteration, after another error again
-- the read.
abbrev pub after_put : Err → Appender → Appender
after_put err c =
    if is_ok err
    then record { stage = waiting; i = c.i + 1; res = record c.res { nok = c.res.nok + 1 } }
    else if is_maybe err
    then record { stage = waiting; i = c.i + 1; res = record c.res { nmaybe = c.res.nmaybe + 1 } }
    else record c { stage = reading }

unfoldable pub write_turn :
    (List EntryN → String)
    → List EntryN
    → ℕ
    → ℕ
    → Fate
    → KvServer
    → Appender
    → Option (KvServer × Appender)
write_turn enc es ver count fate kv c =
    elim (put_loop kv (record { key = "k"; value = enc es; version = ver }) count (one_turn fate)) [
      | retrying kv' ↦ some (kv', record c { stage = writing es ver (count + 1) })
      | fatal ↦ none
      | returned kv' err ↦ some (kv', after_put err c)
    ]

-- The read of OneClientAppend, and the entry that it appends.
unfoldable pub read_turn :
    (String → Option (List EntryN)) → ℕ → Fate → KvServer → Appender → Option (KvServer × Appender)
unfolding get_json
read_turn dec me fate kv c = elim (get_json dec "k" (one_turn fate) kv) [
  | retrying kv' ↦ some (kv', c)
  | fatal ↦ none
  | returned kv' (es, ver) ↦
      some (kv', record c { stage = writing (es ++ (record { id = me; n = c.i } ∷ [])) ver 0 })
]

-- OneClientAppend. A client that waits may also find `done`, and then takes no more turns.
unfoldable pub append_turn :
    (List EntryN → String)
    → (String → Option (List EntryN))
    → ℕ
    → Fate
    → KvServer
    → Appender
    → Option (KvServer × Appender)
unfolding write_turn read_turn
append_turn enc dec me fate kv c = elim c.stage [
  | waiting ↦ some (kv, record c { stage = reading })
  | reading ↦ read_turn dec me fate kv c
  | writing es ver count ↦ write_turn enc es ver count fate kv c
]

pub record Appends : Type 0 where
  pub kv : KvServer
  pub clients : List Appender

abbrev pub fresh_appender : Appender
fresh_appender = record { stage = waiting; i = 0; res = record { nok = 0; nmaybe = 0 } }

-- The clients take turns in the order of the schedule, which also has the fates of their calls.
unfoldable pub run_appends :
    (List EntryN → String)
    → (String → Option (List EntryN))
    → List (ℕ × Fate)
    → Appends
    → Option Appends
unfolding append_turn
run_appends enc dec [] sys = some sys
run_appends enc dec ((me, fate) ∷ schedule) sys = do
  c ← get_elem? sys.clients me
  (kv', c') ← append_turn enc dec me fate sys.kv c
  run_appends enc dec schedule (record { kv = kv'; clients = set sys.clients me c' })

-- m[k], which is 0 where the map has no entry
abbrev pub at_key : ℕ → Dict ℕ ℕ → ℕ
at_key k m = elim (lookup k m) [ none ↦ 0 | some v ↦ v ]

-- CheckAppends: the first loop, which sets both maps.
unfoldable pub zeros : ℕ → Dict ℕ ℕ → Dict ℕ ℕ
zeros zero m = m
zeros (suc n) m = insert n 0 (zeros n m)

-- One round of the loop over the entries.
unfoldable pub note_entry : EntryN → Dict ℕ ℕ → Dict ℕ ℕ → Option (Dict ℕ ℕ × Dict ℕ ℕ)
note_entry e expect skipped =
    let x = at_key e.id expect in
    if ltb e.n x
    then none
    else if x == e.n
    then some (insert e.id (x + 1) expect, skipped)
    else some (insert e.id (e.n + 1) expect, insert e.id (at_key e.id skipped + (e.n - x)) skipped)

unfoldable pub note_entries : List EntryN → Dict ℕ ℕ → Dict ℕ ℕ → Option (Dict ℕ ℕ × Dict ℕ ℕ)
unfolding note_entry
note_entries [] expect skipped = some (expect, skipped)
note_entries (e ∷ es) expect skipped = do
  (expect', skipped') ← note_entry e expect skipped
  note_entries es expect' skipped'

-- The loop over `expect`.
unfoldable pub check_results : Dict ℕ ℕ → Dict ℕ ℕ → List ClntRes → Bool
check_results [] skipped rs = true
check_results ((c, n) ∷ expect) skipped rs = elim (get_elem? rs c) [
  | none ↦ false
  | some r ↦
      not (ltb r.nmaybe (at_key c skipped))
      && (not (ltb (r.nok + r.nmaybe) n) && check_results expect skipped rs)
]

-- CheckAppends
unfoldable pub check_appends : List EntryN → ℕ → List ClntRes → ℕ → Bool
unfolding zeros note_entries check_results
check_appends es nclnt rs ver = elim (note_entries es (zeros nclnt []) (zeros nclnt [])) [
  | none ↦ false
  | some (expect, skipped) ↦ (length es + 1 == ver) && check_results expect skipped rs
]
