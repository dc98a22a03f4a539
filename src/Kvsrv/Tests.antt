-- ===== src/Kvsrv/Tests.antt =====
-- Runs of the clerk and the server of src/kvsrv1.
use mit_6_5824_lab.Prelude.{
  lookup, insert, ◌+◌, ◌^◌, ◌<◌, String, ◌≡◌, refl, none, some, List, [], ◌∷◌, arith,
}
use mit_6_5824_lab.Kvsrv.Lock.{
  read_until_success, Round, try_put, acquire_round, acquire, check_and_reput, release,
}
use mit_6_5824_lab.Kvsrv.Clerk.{
  request_lost, reply_lost, delivered, Turn, retrying, returned, put_loop, clerk_put, clerk_get,
}
use mit_6_5824_lab.Kvsrv.Registers.{
  register, cas_reply, version_of, serve_puts, acks, version-serve_puts,
}
use mit_6_5824_lab.Kvsrv.Registers.Refines.{Refines, put-Refines}
use mit_6_5824_lab.Kvsrv.Rpc.{Err, err_maybe, GetArgs, PutArgs, fresh_get, fresh_put}
use mit_6_5824_lab.Kvsrv.Server.{KvServer, make_kv_server, add_record, update_record, get, put}
use mit_6_5824_lab.Kvsrv.Lock.Returns.{release-returns}
use mit_6_5824_lab.Kvsrv.Lock.Leaks.{quiet_turn, lost_round, acquire_leaks}
use mit_6_5824_lab.Kvsrv.Clerk.Returns.{clerk_returns}
use mit_6_5824_lab.Kvsrv.Clerk.Contract.{performed, load, Honours, clerk_put-Honours}

abbrev first_put : PutArgs
first_put = record { key = "x"; value = "a"; version = 0 }

abbrev second_put : PutArgs
second_put = record { key = "x"; value = "b"; version = 1 }

abbrev stray_put : PutArgs
stray_put = record { key = "y"; value = "b"; version = 1 }

abbrev stored : KvServer
stored = record { kv_store = ("x", record { value = "a"; version = 1 }) ∷ [] }

-- The first request is performed but its reply is lost; then the clerk gets ErrVersion.
abbrev lost_reply : List Turn
lost_reply =
    record { others = stray_put ∷ []; fate = reply_lost }
    ∷ record { others = []; fate = delivered }
    ∷ []

clerk_put_run : clerk_put make_kv_server first_put lost_reply ≡ returned stored err_maybe
unfolding clerk_put put_loop put add_record update_record lookup serve_puts insert
clerk_put_run = refl

put-Refines_example :
    (kv' : KvServer) × (put stored second_put fresh_put
      ≡ some (kv', record { err = cas_reply (register stored "x") 1 }))
    × Refines stored second_put kv'
put-Refines_example = put-Refines stored second_put fresh_put

version-serve_puts_example :
    (kv : KvServer) × (errs : List Err) × (serve_puts make_kv_server
        (first_put ∷ stray_put ∷ second_put ∷ [])
      ≡ some (kv, errs))
    × (version_of (register kv "x") ≡ acks "x" (first_put ∷ stray_put ∷ second_put ∷ []) errs)
version-serve_puts_example =
    version-serve_puts "x" (first_put ∷ stray_put ∷ second_put ∷ []) (omega arith)

few : version_of (register make_kv_server "x") + load lost_reply < 2 ^ 64
unfolding register lookup
few = omega arith

clerk_put-Honours_example :
    Honours
      (clerk_put make_kv_server first_put lost_reply)
      (performed make_kv_server first_put lost_reply)
clerk_put-Honours_example = clerk_put-Honours make_kv_server first_put lost_reply few

abbrev taken : KvServer
taken = record { kv_store = ("lock", record { value = "me"; version = 1 }) ∷ [] }

-- A round in which the server gets both calls and its replies arrive.
abbrev good_round : String → Round
good_round value = record {
  val_written = value;
  get_turns = quiet_turn delivered ∷ [];
  put_turns = quiet_turn delivered ∷ [];
  reread_turns = [];
}

acquired : acquire make_kv_server "lock" (good_round "me" ∷ []) ≡ returned taken "me"
unfolding acquire acquire_round try_put clerk_get clerk_put put_loop serve_puts get put add_record
    lookup insert
acquired = refl

-- After one quiet read of the lock's version, Release frees the lock.
released :
    release taken "lock" (quiet_turn delivered ∷ []) (
      ((quiet_turn delivered ∷ []) ∷ [], quiet_turn delivered ∷ [])
      ∷ ((quiet_turn delivered ∷ []) ∷ [], [])
      ∷ [])
    ≡ returned (record { kv_store = ("lock", record { value = ""; version = 2 }) ∷ [] }) tt
unfolding release check_and_reput read_until_success clerk_get clerk_put put_loop serve_puts get put
    update_record lookup insert
released = refl

taken-register : register taken "lock" ≡ some (record { value = "me"; version = 1 })
unfolding register lookup
taken-register = refl

taken_stands :
    (0 < version_of (register taken "lock")) × (version_of (register taken "lock") + 8 < 2 ^ 64)
unfolding register lookup
taken_stands = (omega arith, omega arith)

-- A reply of each call is lost, and another client's put comes before the put of Release.
abbrev lossy : List Turn
lossy = quiet_turn reply_lost ∷ quiet_turn delivered ∷ []

abbrev disturbed : List Turn
disturbed =
    record {
      others = record { key = "lock"; value = "you"; version = 1 } ∷ [];
      fate = request_lost;
    }
    ∷ quiet_turn delivered
    ∷ []

release-returns_example :
    (kv' : KvServer) × (release taken "lock" lossy (
        ((quiet_turn delivered ∷ []) ∷ [], disturbed) ∷ ((quiet_turn delivered ∷ []) ∷ [], []) ∷ [])
      ≡ returned kv' tt)
    × (version_of (register taken "lock") < version_of (register kv' "lock"))
release-returns_example =
    release-returns taken "lock" lossy (quiet_turn delivered ∷ []) disturbed
      (quiet_turn delivered ∷ []) [] [] [] [] refl refl refl refl taken_stands.0
      (omega (arith, taken_stands.1))

no_lock_yet : register make_kv_server "lock" ≡ none
unfolding register lookup
no_lock_yet = refl

acquire_leaks_example :
    (kv' : KvServer) × (acquire make_kv_server "lock" (lost_round "me" ∷ good_round "me" ∷ [])
      ≡ retrying kv')
    × (register kv' "lock" ≡ some (record { value = "me"; version = 1 }))
acquire_leaks_example =
    acquire_leaks make_kv_server "lock" "me" (good_round "me" ∷ []) no_lock_yet refl
      ((refl, tt), tt)

abbrev first_get : GetArgs
first_get = record { key = "x" }

clerk_returns_example :
    ((kv' : KvServer) × (err : Err) × (clerk_put make_kv_server first_put lost_reply
        ≡ returned kv' err))
    × ((kv' : KvServer) × (clerk_get make_kv_server first_get lost_reply
          ≡ returned kv' (get kv' first_get fresh_get)))
clerk_returns_example = clerk_returns make_kv_server first_put first_get lost_reply refl
