-- ===== src/Models/Legal.antt =====
-- The replies of src/kvsrv1/server.go are legal steps of `KvModel`, except ErrNoKey to a put.
use text.Mathlib.TextPositions.{eq_refl}
use mit_6_5824_lab.Prelude.{lookup, ◌≡◌, refl, true, not, Option, none, some, arith, string_eq}
use mit_6_5824_lab.Kvsrv.Rpc.{Err, is_no_key, GetArgs, GetReply, PutArgs, fresh_get, fresh_put}
use mit_6_5824_lab.Kvsrv.Server.{Entry, KvServer, get, put}
use mit_6_5824_lab.Kvsrv.Registers.{
  register, cas, cas_reply, put_state, put-eq-some, put_state-Refines,
}
use mit_6_5824_lab.Models.Kv.{KvInput, KvOutput, KvState, init_state, state, step}

-- The state of the model that a register stands for.
abbrev pub state_of : Option Entry → KvState
state_of none = init_state
state_of (some entry) = record { value = entry.value; version = entry.version }

-- What `Put` and `Get` of src/kvtest1/porcupine.go log of one call.
abbrev pub put_input : PutArgs → KvInput
put_input p = record { op = 1; key = p.key; value = p.value; version = p.version }

abbrev pub put_output : Err → KvOutput
put_output e = record { value = ""; version = 0; err = e }

abbrev pub get_input : GetArgs → KvInput
get_input g = record { op = 0; key = g.key; value = ""; version = 0 }

abbrev pub get_output : GetReply → KvOutput
get_output r = record { value = r.value; version = r.version; err = r.err }

step-cas :
    (o : Option Entry) (p : PutArgs)
    → step (state_of o) (put_input p) (put_output (cas_reply o p.version))
      ≡ (not (is_no_key (cas_reply o p.version)), state (state_of (cas o p.value p.version)))
unfolding step
step-cas o p = ground arith

pub put_state-step :
    (kv : KvServer) (p : PutArgs)
    → step
        (state_of (register kv p.key))
        (put_input p)
        (put_output (cas_reply (register kv p.key) p.version))
      ≡ (
        not (is_no_key (cas_reply (register kv p.key) p.version)),
        state (state_of (register (put_state kv p) p.key)),
      )
put_state-step kv p =
    ground (
      arith,
      step-cas (register kv p.key) p,
      (put_state-Refines kv p).registers p.key,
      eq_refl p.key,
    )

-- The model calls the reply of a put legal exactly if it is not ErrNoKey, and goes to the state
-- that the register has after the put.
pub put-step :
    (kv : KvServer) (p : PutArgs)
    → (kv' : KvServer) × (e : Err) × (put kv p fresh_put ≡ some (kv', record { err = e }))
      × (step (state_of (register kv p.key)) (put_input p) (put_output e)
          ≡ (not (is_no_key e), state (state_of (register kv' p.key))))
put-step kv p = (
  put_state kv p,
  cas_reply (register kv p.key) p.version,
  put-eq-some kv p fresh_put,
  put_state-step kv p,
)

-- Every reply of a get into a fresh variable is legal, and the model stays where it is.
pub get-step :
    (kv : KvServer) (g : GetArgs)
    → step (state_of (register kv g.key)) (get_input g) (get_output (get kv g fresh_get))
      ≡ (true, state (state_of (register kv g.key)))
unfolding step get register
get-step kv g = go (lookup g.key kv.kv_store) refl
  where
    go :
        (o : Option Entry)
        → lookup g.key kv.kv_store ≡ o
        → step (state_of (lookup g.key kv.kv_store)) (get_input g) (get_output (get kv g fresh_get))
          ≡ (true, state (state_of (lookup g.key kv.kv_store)))
    go none e = rw (e, get) (rw eq_refl)
    go (some entry) e = rw (e, get) (rw eq_refl)
