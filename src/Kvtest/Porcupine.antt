-- ===== src/Kvtest/Porcupine.antt =====
-- src/kvtest1/porcupine.go: the log of the clerks' operations, for clients whose calls interleave.
-- The clerk and the server are those of src/kvsrv1. A step of a client begins an operation or is one call of
-- its clerk; the clock counts the steps. The function that checks the log is that of a package
-- outside the repository. `none` is log.Fatal in the server.
pub mod Linearizable
pub mod Marks
pub mod Turns
pub mod Calls
pub mod Sequences
pub mod Runs
pub mod History
mod Tests
use mit_6_5824_lab.Prelude.{
  length, get_elem?, set, replicate, ◌>>=◌, ℕ, ◌+◌, Option, none, some, List, [], ◌∷◌, ◌++◌,
}
use mit_6_5824_lab.Kvsrv.Clerk.Single.{one_turn}
use mit_6_5824_lab.Kvsrv.Rpc.{GetArgs, PutArgs}
use mit_6_5824_lab.Kvsrv.Server.{KvServer, make_kv_server}
use mit_6_5824_lab.Kvsrv.Clerk.{Fate, retrying, returned, fatal, put_loop, clerk_get}
use mit_6_5824_lab.Models.Kv.{KvInput, KvOutput, step}
use mit_6_5824_lab.Models.Legal.{put_input, put_output, get_input, get_output}
use mit_6_5824_lab.Models.History.{Request, get_request, put_request}

-- porcupine.Operation, as Get and Put fill it.
pub record Operation : Type 0 where
  pub client_id : ℕ
  pub input : KvInput
  pub call : ℕ
  pub output : KvOutput
  pub ret : ℕ

-- OpLog.Append
unfoldable pub append_op : List Operation → Operation → List Operation
append_op log op = log ++ (op ∷ [])

-- A client within Get or Put: since `start`, with the clerk's request count.
pub data Stage : Type 0 where
  resting : Stage
  calling : Request → ℕ → ℕ → Stage

-- Get, at one call of the clerk
unfoldable pub get_turn :
    ℕ → ℕ → GetArgs → ℕ → ℕ → Fate → KvServer → Option (KvServer × Stage × List Operation)
get_turn cli now g start count fate kv = elim (clerk_get kv g (one_turn fate)) [
  | retrying kv' ↦ some (kv', calling (get_request g) start (count + 1), [])
  | fatal ↦ none
  | returned kv' reply ↦ some (
    kv',
    resting,
    record {
      client_id = cli;
      input = get_input g;
      call = start;
      output = get_output reply;
      ret = now;
    }
        ∷ [],
  )
]

-- Put, at one call of the clerk
unfoldable pub put_turn :
    ℕ → ℕ → PutArgs → ℕ → ℕ → Fate → KvServer → Option (KvServer × Stage × List Operation)
put_turn cli now p start count fate kv = elim (put_loop kv p count (one_turn fate)) [
  | retrying kv' ↦ some (kv', calling (put_request p) start (count + 1), [])
  | fatal ↦ none
  | returned kv' err ↦ some (
    kv',
    resting,
    record {
      client_id = cli;
      input = put_input p;
      call = start;
      output = put_output err;
      ret = now;
    }
        ∷ [],
  )
]

-- One step of a client: what it asks for next if it rests, or else the fate of its call.
unfoldable pub op_turn :
    ℕ → ℕ → Request → Fate → KvServer → Stage → Option (KvServer × Stage × List Operation)
unfolding get_turn put_turn
op_turn cli now request fate kv resting = some (kv, calling request now 0, [])
op_turn cli now request fate kv (calling (get_request g) start count) =
    get_turn cli now g start count fate kv
op_turn cli now request fate kv (calling (put_request p) start count) =
    put_turn cli now p start count fate kv

-- `ops` counts the calls of Config.Op.
pub record OpSystem : Type 0 where
  pub kv : KvServer
  pub clients : List Stage
  pub log : List Operation
  pub ops : ℕ

unfoldable pub append_all : List Operation → List Operation → List Operation
unfolding append_op
append_all log [] = log
append_all log (op ∷ new) = append_all (append_op log op) new

abbrev pub Step : Type 0
Step = ℕ × Request × Fate

unfoldable pub run_ops : ℕ → List Step → OpSystem → Option OpSystem
unfolding op_turn append_all
run_ops now [] sys = some sys
run_ops now ((cli, request, fate) ∷ schedule) sys = do
  c ← get_elem? sys.clients cli
  (kv', c', new) ← op_turn cli now request fate sys.kv c
  run_ops (now + 1) schedule (record {
    kv = kv';
    clients = set sys.clients cli c';
    log = append_all sys.log new;
    ops = sys.ops + length new;
  })

-- `n` clients of a server that has no keys, with an empty log.
unfoldable pub start_ops : ℕ → OpSystem
start_ops n = record { kv = make_kv_server; clients = replicate n resting; log = []; ops = 0 }
