-- ===== src/Kvsrv/Lock/Clients.antt =====
-- Clients that take the lock of src/kvsrv1/lock/lock.go and give it back, again and again, each with its own
-- clerk. A step is one call of a clerk, so that the calls of all clients interleave.
-- `rand k` is the value that RandValue would give in step `k`.
use mit_6_5824_lab.Prelude.{
  ltb, if◌then◌else◌, get_elem?, set, replicate, ◌>>=◌, ℕ, suc, ◌+◌, String, Bool, true, false,
  ◌&&◌, Option, none, some, List, [], ◌∷◌, str_eq,
}
use mit_6_5824_lab.Kvsrv.Rpc.{Err, is_ok, is_no_key, is_maybe, GetReply, PutArgs}
use mit_6_5824_lab.Kvsrv.Server.{KvServer, make_kv_server}
use mit_6_5824_lab.Kvsrv.Clerk.{Fate, retrying, returned, fatal, put_loop, clerk_get}
use mit_6_5824_lab.Kvsrv.Clerk.Single.{one_turn}

-- Where a client stands. In order: outside; in the Get of Acquire; in its Put of the value
-- drawn in a given step, with the version, whether the key was there, and the clerk's request count; in
-- its ReadUntilSuccess; after Acquire; in the Get of Release; in the ReadUntilSuccess of
-- CheckAndReput, with currVersion; in its Put, with the version and the request count.
pub data Stage : Type 0 where
  outside : Stage
  reading : Stage
  writing : ℕ → ℕ → Bool → ℕ → Stage
  rereading : ℕ → Stage
  holding : ℕ → Stage
  releasing : ℕ → Stage
  checking : ℕ → ℕ → Stage
  reputting : ℕ → ℕ → ℕ → ℕ → Stage

-- A call of Get: what comes next if it is lost, and after its reply.
unfoldable pub read_turn :
    String → Fate → KvServer → Stage → (GetReply → Stage) → Option (KvServer × Stage)
read_turn key fate kv waits next = elim (clerk_get kv (record { key = key }) (one_turn fate)) [
  | retrying kv' ↦ some (kv', waits)
  | fatal ↦ none
  | returned kv' reply ↦ some (kv', next reply)
]

-- A call of Put
unfoldable pub put_turn :
    PutArgs → ℕ → Fate → KvServer → Stage → (Err → Stage) → Option (KvServer × Stage)
put_turn args count fate kv waits next = elim (put_loop kv args count (one_turn fate)) [
  | retrying kv' ↦ some (kv', waits)
  | fatal ↦ none
  | returned kv' err ↦ some (kv', next err)
]

-- After the Get of Acquire, with the value drawn in step `d`
unfoldable pub after_read : ℕ → GetReply → Stage
after_read d reply =
    if is_no_key reply.err
    then writing d 0 false 0
    else if str_eq reply.value ""
    then writing d reply.version true 0
    else reading

-- After its Put
unfoldable pub after_write : ℕ → Bool → Err → Stage
after_write d reread err =
    if is_ok err then holding d else if reread && is_maybe err then rereading d else reading

-- After a Get of its ReadUntilSuccess
unfoldable pub after_reread : (ℕ → String) → ℕ → GetReply → Stage
after_reread rand d reply =
    if is_ok reply.err
    then (if str_eq reply.value (rand d) then holding d else reading)
    else rereading d

-- After a Get of CheckAndReput
unfoldable pub after_check : ℕ → ℕ → GetReply → Stage
after_check d curr_version reply =
    if is_ok reply.err
    then (if ltb curr_version reply.version
        then outside
        else reputting d curr_version reply.version 0)
    else checking d curr_version

-- The turn of a client in step `k`
unfoldable pub lock_turn :
    (ℕ → String) → String → ℕ → Fate → KvServer → Stage → Option (KvServer × Stage)
unfolding read_turn put_turn after_read after_write after_reread after_check
lock_turn rand key k fate kv stage = elim stage [
  | outside ↦ some (kv, reading)
  | reading ↦ read_turn key fate kv reading (after_read k)
  | writing d version reread count ↦
      put_turn (record { key = key; value = rand d; version = version }) count fate kv
        (writing d version reread (count + 1)) (after_write d reread)
  | rereading d ↦ read_turn key fate kv (rereading d) (after_reread rand d)
  | holding d ↦ some (kv, releasing d)
  | releasing d ↦ read_turn key fate kv (releasing d) (λ reply. checking d reply.version)
  | checking d curr_version ↦
      read_turn key fate kv (checking d curr_version) (after_check d curr_version)
  | reputting d curr_version version count ↦
      put_turn (record { key = key; value = ""; version = version }) count fate kv
        (reputting d curr_version version (count + 1)) (λ err. checking d curr_version)
]

pub record Room : Type 0 where
  pub kv : KvServer
  pub stages : List Stage

-- A server without keys, and `n` clients that are outside.
unfoldable pub fresh_room : ℕ → Room
fresh_room n = record { kv = make_kv_server; stages = replicate n outside }

-- The clients take turns in the order of the schedule, from step `k` on.
unfoldable pub run_room : (ℕ → String) → String → ℕ → List (ℕ × Fate) → Room → Option Room
unfolding lock_turn
run_room rand key k [] room = some room
run_room rand key k ((me, fate) ∷ schedule) room = do
  stage ← get_elem? room.stages me
  (kv', stage') ← lock_turn rand key k fate room.kv stage
  run_room rand key (suc k) schedule (record { kv = kv'; stages = set room.stages me stage' })
