-- ===== src/Kvsrv/Lock.antt =====
-- src/kvsrv1/lock/lock.go: a lock on a key of the server. The clerk of src/kvsrv1/client.go stands for
-- the interface IKVClerk. Each call of the clerk has its turns; an operation that has used up its
-- turns or rounds is `retrying`.
pub mod Holds
pub mod Leaks
pub mod Returns
pub mod Clients
pub mod Stages
pub mod Steps
pub mod Puts
pub mod Exclusion
mod Tests
use mit_6_5824_lab.Prelude.{
  ltb, if◌then◌else◌, ℕ, String, Bool, true, false, ◌&&◌, List, [], ◌∷◌, str_eq,
}
use mit_6_5824_lab.Kvsrv.Rpc.{is_ok, is_no_key, is_maybe, GetReply}
use mit_6_5824_lab.Kvsrv.Server.{KvServer, put}
use mit_6_5824_lab.Kvsrv.Clerk.{Turn, Outcome, retrying, returned, fatal, clerk_put, clerk_get}

-- ReadUntilSuccess: the turns of one Get after the other.
unfoldable pub read_until_success : KvServer → String → List (List Turn) → Outcome GetReply
read_until_success kv key [] = retrying kv
read_until_success kv key (ts ∷ rounds) = elim (clerk_get kv (record { key = key }) ts) [
  | retrying kv' ↦ retrying kv'
  | fatal ↦ fatal
  | returned kv' reply ↦
      let rest = read_until_success kv' key rounds in
      if is_ok reply.err then returned kv' reply else rest
]

-- One round of Acquire: the random value that RandValue gives and the turns of its calls.
pub record Round : Type 0 where
  pub val_written : String
  pub get_turns : List Turn
  pub put_turns : List Turn
  pub reread_turns : List (List Turn)

-- The put of a round; in the result, whether the lock is acquired. `reread` tells the branch of an
-- empty value from that of a missing key, in which any error goes back to the loop's head.
unfoldable pub try_put : KvServer → String → Round → ℕ → Bool → Outcome Bool
unfolding read_until_success
try_put kv key r version reread =
    elim (clerk_put kv (record { key = key; value = r.val_written; version = version })
      r.put_turns) [
        | retrying kv' ↦ retrying kv'
        | fatal ↦ fatal
        | returned kv' err ↦
            if is_ok err
            then returned kv' true
            else if reread && is_maybe err
            then (elim (read_until_success kv' key r.reread_turns) [
              | retrying kv'' ↦ retrying kv''
              | fatal ↦ fatal
              | returned kv'' reply ↦ returned kv'' (str_eq reply.value r.val_written)
            ])
            else returned kv' false
      ]

-- The body of the loop of Acquire: whether it sets `success`.
unfoldable pub acquire_round : KvServer → String → Round → Outcome Bool
unfolding try_put
acquire_round kv key r = elim (clerk_get kv (record { key = key }) r.get_turns) [
  | retrying kv' ↦ retrying kv'
  | fatal ↦ fatal
  | returned kv' reply ↦
      if is_no_key reply.err
      then try_put kv' key r 0 false
      else if str_eq reply.value ""
      then try_put kv' key r reply.version true
      else returned kv' false
]

-- Acquire: the value that it has written, when it returns.
unfoldable pub acquire : KvServer → String → List Round → Outcome String
unfolding acquire_round
acquire kv key [] = retrying kv
acquire kv key (r ∷ rounds) = elim (acquire_round kv key r) [
  | retrying kv' ↦ retrying kv'
  | fatal ↦ fatal
  | returned kv' success ↦
      let rest = acquire kv' key rounds in if success then returned kv' r.val_written else rest
]

-- No result
abbrev pub Done : Type 0
Done = Unit

-- CheckAndReput: a round has the turns of ReadUntilSuccess and those of its Put.
unfoldable pub check_and_reput :
    KvServer → String → ℕ → List (List (List Turn) × List Turn) → Outcome Done
unfolding read_until_success
check_and_reput kv key curr_version [] = retrying kv
check_and_reput kv key curr_version ((reads, puts) ∷ rounds) =
    elim (read_until_success kv key reads) [
      | retrying kv' ↦ retrying kv'
      | fatal ↦ fatal
      | returned kv' reply ↦
          if ltb curr_version reply.version
          then returned kv' tt
          else (elim (clerk_put kv' (record { key = key; value = ""; version = reply.version })
              puts) [
                | retrying kv'' ↦ retrying kv''
                | fatal ↦ fatal
                | returned kv'' _ ↦ check_and_reput kv'' key curr_version rounds
              ])
    ]

-- Release
unfoldable pub release :
    KvServer → String → List Turn → List (List (List Turn) × List Turn) → Outcome Done
unfolding check_and_reput
release kv key get_turns rounds = elim (clerk_get kv (record { key = key }) get_turns) [
  | retrying kv' ↦ retrying kv'
  | fatal ↦ fatal
  | returned kv' reply ↦ check_and_reput kv' key reply.version rounds
]
