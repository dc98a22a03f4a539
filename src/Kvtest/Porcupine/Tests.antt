-- ===== src/Kvtest/Porcupine/Tests.antt =====
-- A run of two clients that is logged: one loses the reply to a put that the server has performed.
use mathlib.Core.Option
use mit_6_5824_lab.Prelude.{length, lookup, insert, ◌≡◌, refl, some, List, [], ◌∷◌, arith}
use mit_6_5824_lab.Kvsrv.Rpc.{ok, err_maybe}
use mit_6_5824_lab.Kvsrv.Server.{add_record, update_record, get, put}
use mit_6_5824_lab.Kvsrv.Clerk.{reply_lost, delivered, put_loop, clerk_get}
use mit_6_5824_lab.Kvsrv.Registers.{serve_puts}
use mit_6_5824_lab.Models.History.{Request, get_request, put_request}
use mit_6_5824_lab.Kvtest.Porcupine.{
  Operation, append_op, get_turn, put_turn, op_turn, OpSystem, append_all, Step, run_ops, start_ops,
}
use mit_6_5824_lab.Kvtest.Porcupine.Linearizable.{Linearized}
use mit_6_5824_lab.Kvtest.Porcupine.History.{run_ops-Linearized}

abbrev a_put : Request
a_put = put_request (record { key = "a"; value = "x"; version = 0 })

abbrev a_get : Request
a_get = get_request (record { key = "a" })

abbrev a_schedule : List Step
a_schedule =
    (0, a_put, delivered)
    ∷ ((1, a_get, delivered)
        ∷ ((0, a_put, reply_lost) ∷ ((1, a_get, delivered) ∷ ((0, a_put, delivered) ∷ []))))

abbrev a_log : List Operation
a_log =
    record {
      client_id = 1;
      input = record { op = 0; key = "a"; value = ""; version = 0 };
      call = 1;
      output = record { value = "x"; version = 1; err = ok };
      ret = 3;
    }
    ∷ (record {
      client_id = 0;
      input = record { op = 1; key = "a"; value = "x"; version = 0 };
      call = 0;
      output = record { value = ""; version = 0; err = err_maybe };
      ret = 4;
    }
        ∷ [])

schedule_run : Option.map (λ sys. sys.log) (run_ops 0 a_schedule (start_ops 2)) ≡ some a_log
unfolding run_ops start_ops op_turn put_turn get_turn append_all append_op put_loop clerk_get
    serve_puts put get lookup insert add_record update_record
schedule_run = refl

run_ops-Linearized_example :
    (sys : OpSystem) × (run_ops 0 a_schedule (start_ops 2) ≡ some sys)
    × Linearized (length a_schedule) sys.clients sys.log
run_ops-Linearized_example =
    run_ops-Linearized 2 a_schedule
      (omega arith, (omega arith, (omega arith, (omega arith, (omega arith, tt))))) (omega arith)
