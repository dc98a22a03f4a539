-- ===== src/Kvsrv/Lock/Leaks.antt =====
-- When Acquire of src/kvsrv1/lock/lock.go never returns, although nobody else puts to the server.
use mit_6_5824_lab.Kvsrv.Registers.{
  register, cas_reply, put_state, put-eq-some, put_state-Refines, serve_puts,
}
use mit_6_5824_lab.Kvsrv.Server.{Entry, KvServer, get, put}
use mit_6_5824_lab.Kvsrv.Rpc.{err_version, GetArgs, PutArgs, fresh_get, fresh_put}
use mit_6_5824_lab.Kvsrv.Clerk.{
  Fate, reply_lost, delivered, Turn, retrying, returned, put_loop, clerk_put, clerk_get,
}
use mit_6_5824_lab.Kvsrv.Lock.{Round, acquire_round, acquire}
use mit_6_5824_lab.Prelude.{
  String, ◌≡◌, refl, ◌⊎◌, inl, false, none, some, List, [], ◌∷◌, arith, str_eq, eq_iff,
}

-- No puts of others come before the calls of these turns.
abbrev pub Quiet : List Turn → Type 0
Quiet [] = Unit
Quiet (t ∷ ts) = (t.others ≡ []) × Quiet ts

-- Nor before the gets at the head of these rounds.
abbrev pub QuietGets : List Round → Type 0
QuietGets [] = Unit
QuietGets (r ∷ rounds) = Quiet r.get_turns × QuietGets rounds

clerk_get-Quiet :
    (kv : KvServer) (args : GetArgs) (ts : List Turn)
    → Quiet ts
    → (clerk_get kv args ts ≡ retrying kv)
      ⊎ (clerk_get kv args ts ≡ returned kv (get kv args fresh_get))
unfolding clerk_get serve_puts
clerk_get-Quiet kv args [] q = inl refl
clerk_get-Quiet kv args (t ∷ ts) q =
    let rest = clerk_get-Quiet kv args ts q.1 in ground (arith, q.0)

acquire_round-taken :
    (kv : KvServer) (key : String) (entry : Entry) (r : Round)
    → register kv key ≡ some entry
    → str_eq entry.value "" ≡ false
    → Quiet r.get_turns
    → (acquire_round kv key r ≡ retrying kv) ⊎ (acquire_round kv key r ≡ returned kv false)
unfolding acquire_round register get
acquire_round-taken kv key entry r there full q =
    let got = clerk_get-Quiet kv (record { key = key }) r.get_turns q in ground arith

-- While the key holds a value other than the empty one and nobody puts to the server, Acquire does
-- not return in any number of rounds, also if the value is one that it has written itself.
pub acquire-taken :
    (kv : KvServer) (key : String) (entry : Entry) (rounds : List Round)
    → register kv key ≡ some entry
    → str_eq entry.value "" ≡ false
    → QuietGets rounds
    → acquire kv key rounds ≡ retrying kv
unfolding acquire
acquire-taken kv key entry [] there full q = refl
acquire-taken kv key entry (r ∷ rounds) there full q =
    let one = acquire_round-taken kv key entry r there full q.0 in
    let rest = acquire-taken kv key entry rounds there full q.1 in ground arith

abbrev pub quiet_turn : Fate → Turn
quiet_turn fate = record { others = []; fate = fate }

-- A round in which the reply of the first request of Put is lost.
abbrev pub lost_round : String → Round
lost_round value = record {
  val_written = value;
  get_turns = quiet_turn delivered ∷ [];
  put_turns = quiet_turn reply_lost ∷ quiet_turn delivered ∷ [];
  reread_turns = [];
}

put_state_same :
    (kv : KvServer) (args : PutArgs)
    → cas_reply (register kv args.key) args.version ≡ err_version
    → put_state kv args ≡ kv
unfolding put_state put register
put_state_same kv args h = ground arith

acquire_round-lost :
    (kv : KvServer) (key value : String)
    → register kv key ≡ none
    → register (put_state kv (record { key = key; value = value; version = 0 })) key
      ≡ some (record { value = value; version = 1 })
    → acquire_round kv key (lost_round value)
      ≡ returned (put_state kv (record { key = key; value = value; version = 0 })) false
unfolding acquire_round clerk_put put_loop clerk_get get register serve_puts
acquire_round-lost kv key value free there =
    let args : PutArgs = record { key = key; value = value; version = 0 } in
    let one = put-eq-some kv args fresh_put in
    let two = put-eq-some (put_state kv args) args fresh_put in
    let same = put_state_same (put_state kv args) args (ground arith) in ground arith

-- If the key is missing and the first reply to Put of the first round is lost, then the lock is
-- taken by nobody for good: the key holds the value of that round, and Acquire, which takes
-- ErrMaybe for a failure then, does not return in any number of rounds in which nobody else puts.
pub acquire_leaks :
    (kv : KvServer) (key value : String) (rounds : List Round)
    → register kv key ≡ none
    → str_eq value "" ≡ false
    → QuietGets rounds
    → (kv' : KvServer) × (acquire kv key (lost_round value ∷ rounds) ≡ retrying kv')
      × (register kv' key ≡ some (record { value = value; version = 1 }))
unfolding acquire
acquire_leaks kv key value rounds free full q =
    let args : PutArgs = record { key = key; value = value; version = 0 } in
    let kv' = put_state kv args in
    let there : register kv' key ≡ some (record { value = value; version = 1 }) =
      ground (arith, (put_state-Refines kv args).registers key, eq_iff key key) in
    let first : acquire_round kv key (lost_round value) ≡ returned kv' false =
      acquire_round-lost kv key value free there in
    let rest = acquire-taken kv' key (record { value = value; version = 1 }) rounds there full q in
    (kv', ground arith, there)
