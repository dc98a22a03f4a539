-- ===== src/Kvsrv/Clerk/Single.antt =====
-- One call of the clerk of src/kvsrv1/client.go at a time, so that the calls of several clients interleave.
use mit_6_5824_lab.Prelude.{
  ltb, if◌then◌else◌, Option-cases, lookup, ℕ, ◌+◌, ◌<◌, String, ◌≡◌, refl, inl, inr, ◌&&◌, none,
  some, List, [], ◌∷◌, arith, eq_iff, string_eq,
}
use mit_6_5824_lab.Kvsrv.Rpc.{ok, err_no_key, err_maybe, is_version, PutArgs, fresh_put}
use mit_6_5824_lab.Kvsrv.Server.{KvServer, get}
use mit_6_5824_lab.Kvsrv.Clerk.{
  Fate, request_lost, reply_lost, delivered, Turn, retrying, returned, put_loop, clerk_get,
}
use mit_6_5824_lab.Kvsrv.Registers.{
  register, cas, cas_reply, put_state, put-eq-some, put_state-Refines, serve_puts,
}

-- One call of the network, with nothing before it.
abbrev pub one_turn : Fate → List Turn
one_turn fate = record { others = []; fate = fate } ∷ []

-- The register after a put .
pub register_self :
    (kv : KvServer) (args : PutArgs)
    → register (put_state kv args) args.key ≡ cas (register kv args.key) args.value args.version
register_self kv args =
    rw ((put_state-Refines kv args).registers args.key) (ground (arith, eq_iff args.key args.key))

-- What one call of the clerk's Put comes to.
pub put_loop-one :
    (kv : KvServer) (args : PutArgs) (count : ℕ)
    → (put_loop kv args count (one_turn request_lost) ≡ retrying kv)
      × (put_loop kv args count (one_turn reply_lost) ≡ retrying (put_state kv args))
      × (put_loop kv args count (one_turn delivered)
          ≡ returned (put_state kv args) (
              let err = cas_reply (register kv args.key) args.version in
              if is_version err && ltb 1 (count + 1) then err_maybe else err))
unfolding put_loop serve_puts
put_loop-one kv args count =
    let served = put-eq-some kv args fresh_put in
    (refl, ground (arith, served), ground (arith, served))

-- What one call of the clerk's Get comes to.
pub clerk_get-one :
    (kv : KvServer) (key : String)
    → (clerk_get kv (record { key = key }) (one_turn request_lost) ≡ retrying kv)
      × (clerk_get kv (record { key = key }) (one_turn reply_lost) ≡ retrying kv)
      × (clerk_get kv (record { key = key }) (one_turn delivered)
          ≡ returned kv (elim (register kv key) [
            | none ↦ record { value = ""; version = 0; err = err_no_key }
            | some entry ↦ record { value = entry.value; version = entry.version; err = ok }
          ]))
unfolding clerk_get serve_puts get register
clerk_get-one kv key = elim (Option-cases (lookup key kv.kv_store)) [
  | inl e ↦ (refl, refl, ground (arith, e))
  | inr (entry, e) ↦ (refl, refl, ground (arith, e))
]

-- Each turn of a schedule is that of one of `n` clients.
abbrev pub InRange : ℕ → List (ℕ × Fate) → Type 0
InRange n [] = Unit
InRange n ((me, fate) ∷ schedule) = (me < n) × InRange n schedule
