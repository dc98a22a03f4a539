-- ===== src/Kvtest/Clients.antt =====
-- src/kvtest1/kvtest.go: clients that put to one key again and again, and the check of their results.
-- The clerk and the server are those of src/kvsrv1. `enc` and `dec` stand for json.Marshal and
-- json.Unmarshal of an EntryV. `fatal` and `none` are Fatalf, which ends the test. One step of a client
-- is one call of its clerk, so that the calls of other clients come between any two of them.
use mit_6_5824_lab.Kvsrv.Clerk.Single.{one_turn}
use mit_6_5824_lab.Prelude.{
  ltb, ◌==◌, if◌then◌else◌, get_elem?, set, replicate, ◌>>=◌, ℕ, ◌+◌, String, Bool, true, false,
  not, ◌&&◌, ◌||◌, Option, none, some, List, [], ◌∷◌,
}
use mit_6_5824_lab.Kvsrv.Rpc.{Err, is_ok, is_version, is_maybe, u64}
use mit_6_5824_lab.Kvsrv.Server.{KvServer, make_kv_server}
use mit_6_5824_lab.Kvsrv.Clerk.{Fate, Turn, Outcome, retrying, returned, fatal, put_loop, clerk_get}

pub record EntryV : Type 0 where
  pub id : ℕ
  pub v : ℕ

pub record ClntRes : Type 0 where
  pub nok : ℕ
  pub nmaybe : ℕ

-- Where a client stands in OneClientPut: between two calls of OnePut, in PutJson with the clerk's
-- request count, or in GetJson with the error that PutJson has returned.
pub data Phase : Type 0 where
  idle : Phase
  putting : ℕ → Phase
  getting : Err → Phase

-- A client: `ver` is verm[k] between two calls of OnePut and `ver` within one.
pub record Client : Type 0 where
  pub ver : ℕ
  pub phase : Phase
  pub res : ClntRes

-- GetJson
unfoldable pub get_json :
    {V : Type 0} → (String → Option V) → String → List Turn → KvServer → Outcome (V × ℕ)
get_json dec key turns kv = elim (clerk_get kv (record { key = key }) turns) [
  | retrying kv' ↦ retrying kv'
  | fatal ↦ fatal
  | returned kv' reply ↦
      if is_ok reply.err
      then (elim (dec reply.value) [ none ↦ fatal | some e ↦ returned kv' (e, reply.version) ])
      else fatal
]

-- The put of OnePut, by client `me`
unfoldable pub put_turn :
    (EntryV → String) → String → ℕ → ℕ → Fate → KvServer → Client → Option (KvServer × Client)
put_turn enc key me count fate kv c =
    elim (put_loop kv
      (record { key = key; value = enc (record { id = me; v = c.ver }); version = c.ver }) count
      (one_turn fate)) [
        | retrying kv' ↦ some (kv', record c { phase = putting (count + 1) })
        | fatal ↦ none
        | returned kv' err ↦
            if is_ok err || (is_version err || is_maybe err)
            then some (kv', record c { phase = getting err })
            else none
      ]

-- OneClientPut counts what OnePut returns.
abbrev pub count_put : Bool → ClntRes → ClntRes
count_put true res = record res { nok = res.nok + 1 }
count_put false res = record res { nmaybe = res.nmaybe + 1 }

-- The rest of OnePut, once the read has returned: whether the value is wrong, and the next round.
abbrev pub wrong_value : ℕ → Err → ℕ → EntryV → ℕ → Bool
wrong_value me err ver e ver0 =
    (is_ok err && (ver0 == u64 (ver + 1))) && (not (e.id == me) && not (e.v == ver))

abbrev pub after_read : Err → ℕ → Client → Client
after_read err ver0 c =
    if is_ok err || is_maybe err
    then record { ver = ver0; phase = idle; res = count_put (is_ok err) c.res }
    else record { ver = ver0; phase = putting 0; res = c.res }

-- The read of OnePut
unfoldable pub get_turn :
    (String → Option EntryV)
    → String
    → ℕ
    → Err
    → Fate
    → KvServer
    → Client
    → Option (KvServer × Client)
unfolding get_json
get_turn dec key me err fate kv c = elim (get_json dec key (one_turn fate) kv) [
  | retrying kv' ↦ some (kv', c)
  | fatal ↦ none
  | returned kv' (e, ver0) ↦
      if wrong_value me err c.ver e ver0 then none else some (kv', after_read err ver0 c)
]

-- OneClientPut, with one key in `ka`
unfoldable pub client_turn :
    (EntryV → String)
    → (String → Option EntryV)
    → String
    → ℕ
    → Fate
    → KvServer
    → Client
    → Option (KvServer × Client)
unfolding put_turn get_turn
client_turn enc dec key me fate kv c = elim c.phase [
  | idle ↦ some (kv, record c { phase = putting 0 })
  | putting count ↦ put_turn enc key me count fate kv c
  | getting err ↦ get_turn dec key me err fate kv c
]

pub record System : Type 0 where
  pub kv : KvServer
  pub clients : List Client

abbrev pub fresh_client : Client
fresh_client = record { ver = 0; phase = idle; res = record { nok = 0; nmaybe = 0 } }

-- SpawnClientsAndWait, with a server that has no keys
unfoldable pub spawn_clients : ℕ → System
spawn_clients nclnt = record { kv = make_kv_server; clients = replicate nclnt fresh_client }

-- The clients take turns in the order of the schedule, which also has the fates of their calls.
unfoldable pub run_clients :
    (EntryV → String) → (String → Option EntryV) → String → List (ℕ × Fate) → System → Option System
unfolding client_turn
run_clients enc dec key [] sys = some sys
run_clients enc dec key ((me, fate) ∷ schedule) sys = do
  c ← get_elem? sys.clients me
  (kv', c') ← client_turn enc dec key me fate sys.kv c
  run_clients enc dec key schedule (record { kv = kv'; clients = set sys.clients me c' })

-- CheckPutConcurrent: the loop that adds up the results.
unfoldable pub add_results : List ClntRes → ClntRes → ClntRes
add_results [] res = res
add_results (r ∷ rs) res =
    add_results rs (record { nok = res.nok + r.nok; nmaybe = res.nmaybe + r.nmaybe })

unfoldable pub check_put_concurrent :
    (String → Option EntryV)
    → String
    → List ClntRes
    → ClntRes
    → Bool
    → List Turn
    → KvServer
    → Outcome ClntRes
unfolding get_json add_results
check_put_concurrent dec key rs res reliable turns kv = elim (get_json dec key turns kv) [
  | retrying kv' ↦ retrying kv'
  | fatal ↦ fatal
  | returned kv' (e, ver0) ↦
      let total = add_results rs res in
      if reliable
      then (if ver0 == u64 total.nok then returned kv' total else fatal)
      else if ltb (u64 (total.nok + total.nmaybe)) ver0
      then fatal
      else returned kv' total
]
