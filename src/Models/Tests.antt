-- ===== src/Models/Tests.antt =====
-- Histories of src/kvsrv1/server.go under the model of src/models1/kv.go.
use mit_6_5824_lab.Kvsrv.Registers.Defs.{register}
use mit_6_5824_lab.Prelude.{lookup, ◌≡◌, refl, false, List, [], ◌∷◌}
use mit_6_5824_lab.Kvsrv.Rpc.{GetArgs, PutArgs}
use mit_6_5824_lab.Kvsrv.Server.{make_kv_server, add_record, update_record, put}
use mit_6_5824_lab.Models.Kv.{init_state, state, step, partition, accepts}
use mit_6_5824_lab.Models.Legal.{state_of}
use mit_6_5824_lab.Models.History.{
  Request, get_request, put_request, op_log, no_missing, accepts-op_log,
}

abbrev a_put : PutArgs
a_put = record { key = "x"; value = "a"; version = 0 }

abbrev stray_put : PutArgs
stray_put = record { key = "x"; value = "b"; version = 1 }

abbrev a_get : GetArgs
a_get = record { key = "x" }

abbrev some_requests : List Request
some_requests = put_request a_put ∷ get_request a_get ∷ put_request a_put ∷ []

-- The server answers a put with a version to a missing key with ErrNoKey, which the model rejects.
rejected :
    accepts (state init_state) (partition "x" (op_log make_kv_server (put_request stray_put ∷ [])))
    ≡ false
unfolding accepts partition op_log step put add_record update_record lookup
rejected = refl

accepts-op_log_example :
    accepts
      (state (state_of (register make_kv_server "x")))
      (partition "x" (op_log make_kv_server some_requests))
    ≡ no_missing "x" (op_log make_kv_server some_requests)
accepts-op_log_example = accepts-op_log "x" make_kv_server some_requests
