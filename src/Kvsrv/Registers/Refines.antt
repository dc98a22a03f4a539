-- ===== src/Kvsrv/Registers/Refines.antt =====
-- The handlers of src/kvsrv1/server.go refine the registers.
use mit_6_5824_lab.Prelude.{
  if◌then◌else◌, lookup-insert, ◌+◌, String, ◌≡◌, none, some, arith, str_eq, eq_iff, string_eq,
}
use mit_6_5824_lab.Kvsrv.Rpc.{unset, u64, PutArgs, PutReply}
use mit_6_5824_lab.Kvsrv.Server.{KvServer, put}
use mit_6_5824_lab.Kvsrv.Registers.Defs.{register, cas, cas_reply}

pub record Refines (kv : KvServer) (args : PutArgs) (kv' : KvServer) : Type 0 where
  pub registers :
      (k : String)
      → register kv' k ≡ (
          if str_eq args.key k
          then cas (register kv args.key) args.value args.version
          else register kv k)

-- The state that `Put` leaves.
unfoldable pub put_state : KvServer → PutArgs → KvServer
put_state kv args = elim (put kv args (record { err = unset })) [ none ↦ kv | some (kv', _) ↦ kv' ]

pub put-eq-some :
    (kv : KvServer) (args : PutArgs) (reply : PutReply)
    → put kv args reply
      ≡ some (put_state kv args, record { err = cas_reply (register kv args.key) args.version })
unfolding put put_state register
put-eq-some kv args reply = ground arith

pub put_state-Refines : (kv : KvServer) (args : PutArgs) → Refines kv args (put_state kv args)
unfolding put put_state register
put_state-Refines kv args = record {
  registers = λ k. ground (
    arith,
    eq_iff args.key k,
    lookup-insert args.key k (record { value = args.value; version = 1 }) kv.kv_store,
    lookup-insert args.key k (record { value = args.value; version = u64 (args.version + 1) })
        kv.kv_store,
  );
}

-- For every server state, arguments and reply variable, `Put` does not end the process: its reply
-- is the compare-and-set reply of the key's register, that register is set accordingly, and no
-- other register changes.
pub put-Refines :
    (kv : KvServer) (args : PutArgs) (reply : PutReply)
    → (kv' : KvServer) × (put kv args reply
        ≡ some (kv', record { err = cas_reply (register kv args.key) args.version }))
      × Refines kv args kv'
put-Refines kv args reply =
    (put_state kv args, put-eq-some kv args reply, put_state-Refines kv args)
