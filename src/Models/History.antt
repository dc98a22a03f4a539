-- ===== src/Models/History.antt =====
-- A run of src/kvsrv1/server.go, logged as src/kvtest1/porcupine.go logs it, before `KvModel`.
use mit_6_5824_lab.Prelude.{
  ◌==◌, Bool-cases, String, ◌≡◌, refl, inl, inr, Bool, true, not, ◌&&◌, ◌||◌, none, some, List, [],
  ◌∷◌, arith, str_eq, eq_iff,
}
use mit_6_5824_lab.Kvsrv.Rpc.{is_no_key, GetArgs, PutArgs, fresh_get, fresh_put}
use mit_6_5824_lab.Kvsrv.Server.{KvServer, get, put}
use mit_6_5824_lab.Kvsrv.Registers.{register, put_state, put-eq-some, put_state-Refines}
use mit_6_5824_lab.Models.Kv.{KvInput, KvOutput, state, partition, accepts}
use mit_6_5824_lab.Models.Legal.{
  state_of, put_input, put_output, get_input, get_output, put_state-step, get-step,
}

pub data Request : Type 0 where
  get_request : GetArgs → Request
  put_request : PutArgs → Request

-- The operations of one client after another, each logged with its reply, as long as the process
-- lives.
unfoldable pub op_log : KvServer → List Request → List (KvInput × KvOutput)
op_log kv [] = []
op_log kv (get_request g ∷ rest) = (get_input g, get_output (get kv g fresh_get)) ∷ op_log kv rest
op_log kv (put_request p ∷ rest) = elim (put kv p fresh_put) [
  | none ↦ []
  | some (kv', reply) ↦ (put_input p, put_output reply.err) ∷ op_log kv' rest
]

-- No put to `k` was answered with ErrNoKey.
unfoldable pub no_missing : String → List (KvInput × KvOutput) → Bool
no_missing k [] = true
no_missing k ((inp, out) ∷ log) =
    (not (str_eq inp.key k) || inp.op == 0 || not (is_no_key out.err)) && no_missing k log

-- For any requests from any state of the server, the model accepts the operations on a key, from
-- the state of that key's register, exactly if no put to the key was answered with ErrNoKey.
pub accepts-op_log :
    (k : String) (kv : KvServer) (requests : List Request)
    → accepts (state (state_of (register kv k))) (partition k (op_log kv requests))
      ≡ no_missing k (op_log kv requests)
unfolding op_log no_missing accepts partition
accepts-op_log k kv [] = refl
accepts-op_log k kv (get_request g ∷ rest) = elim (Bool-cases (str_eq g.key k)) [
  | inl same ↦
      let e = (eq_iff g.key k).0 same in
      rw (same) (ground (arith, get-step kv g, accepts-op_log k kv rest, e))
  | inr other ↦ rw other (accepts-op_log k kv rest)
]
accepts-op_log k kv (put_request p ∷ rest) = elim (Bool-cases (str_eq p.key k)) [
  | inl same ↦ ground (
    arith,
    put-eq-some kv p fresh_put,
    put_state-step kv p,
    (eq_iff p.key k).0 same,
    accepts-op_log k (put_state kv p) rest,
  )
  | inr other ↦ ground (
    arith,
    put-eq-some kv p fresh_put,
    (put_state-Refines kv p).registers k,
    accepts-op_log k (put_state kv p) rest,
  )
]
