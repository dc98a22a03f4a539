-- ===== src/Kvsrv/Clerk/Contract.antt =====
-- The contract that the comment above `Clerk.Put` in src/kvsrv1/client.go states.
use text.Mathlib.TextPositions.{eq_refl}
use mit_6_5824_lab.Prelude.{
  if◌then◌else◌, length, ℕ, ◌+◌, ◌^◌, ◌≤◌, ◌<◌, String, ◌≡◌, refl, Option, none, some, List, [],
  ◌∷◌, arith, eq_iff,
}
use mit_6_5824_lab.Kvsrv.Rpc.{
  Err, ok, err_no_key, err_version, err_maybe, is_ok, PutArgs, fresh_put,
}
use mit_6_5824_lab.Kvsrv.Server.{Entry, KvServer, put}
use mit_6_5824_lab.Kvsrv.Registers.{
  register, cas_reply, version_of, put_state, put-eq-some, put_state-Refines, serve_puts,
  version-put,
}
use mit_6_5824_lab.Kvsrv.Clerk.{
  request_lost, reply_lost, delivered, Turn, Outcome, retrying, returned, fatal, put_loop,
  clerk_put,
}

-- How many of the clerk's own requests the server performed: those that it answered with OK,
-- whether the answer arrived or not.
unfoldable pub performed : KvServer → PutArgs → List Turn → ℕ
performed kv args [] = 0
performed kv args (t ∷ ts) = elim (serve_puts kv t.others) [
  | none ↦ 0
  | some (kv', _) ↦ elim t.fate [
    | request_lost ↦ performed kv' args ts
    | reply_lost ↦ elim (put kv' args fresh_put) [
      | none ↦ 0
      | some (kv'', reply) ↦ (if is_ok reply.err then 1 else 0) + performed kv'' args ts
    ]
    | delivered ↦ elim (put kv' args fresh_put) [
      | none ↦ 0
      | some (kv'', reply) ↦ if is_ok reply.err then 1 else 0
    ]
  ]
]

-- The puts that the server may serve in the turns.
abbrev pub load : List Turn → ℕ
load [] = 0
load (t ∷ ts) = length t.others + 1 + load ts

-- What a result says of the number of performances.
abbrev pub Honours : Outcome Err → ℕ → Type 0
Honours (retrying _) n = n ≤ 1
Honours (returned _ ok) n = n ≡ 1
Honours (returned _ err_version) n = n ≡ 0
Honours (returned _ err_no_key) n = n ≡ 0
Honours (returned _ err_maybe) n = n ≤ 1
Honours (returned _ _) n = ⊥
Honours fatal n = ⊥

-- The register has been written since the request was performed.
abbrev pub Past : Option Entry → ℕ → Type 0
Past none v = ⊥
Past (some entry) v = v < entry.version

pub Past-lt : (o : Option Entry) (v : ℕ) → Past o v → v < version_of o
Past-lt none v h = absurd h
Past-lt (some entry) v h = h

pub Past-put :
    (k : String) (v : ℕ) (kv : KvServer) (p : PutArgs)
    → version_of (register kv k) + 1 < 2 ^ 64
    → Past (register kv k) v
    → Past (register (put_state kv p) k) v
Past-put k v kv p small past =
    rw ((put_state-Refines kv p).registers k) (ground (arith, (eq_iff p.key k).0))

cas_reply-Past : (o : Option Entry) (v : ℕ) → Past o v → cas_reply o v ≡ err_version
cas_reply-Past none v h = absurd h
cas_reply-Past (some entry) v h = ground arith

-- Puts of others keep the key there, and its version does not go down.
pub Past-serve_puts :
    (k : String) (v : ℕ) (kv : KvServer) (ps : List PutArgs)
    → version_of (register kv k) + length ps < 2 ^ 64
    → (kv' : KvServer) × (errs : List Err) × (serve_puts kv ps ≡ some (kv', errs))
      × (version_of (register kv' k) ≤ version_of (register kv k) + length ps)
      × (Past (register kv k) v → Past (register kv' k) v)
unfolding serve_puts
Past-serve_puts k v kv [] h = (kv, [], refl, omega arith, λ past. past)
Past-serve_puts k v kv (p ∷ ps) h =
    let (last, errs, served, bound, keeps) =
      Past-serve_puts k v (put_state kv p) ps (ground (arith, version-put k kv p)) in
    (
      last,
      cas_reply (register kv p.key) p.version ∷ errs,
      ground (arith, put-eq-some kv p fresh_put),
      ground (arith, version-put k kv p),
      λ past. keeps (Past-put k v kv p (omega arith) past),
    )

-- Once performed, a request is not performed again: the register's version is past it.
settled :
    (kv : KvServer) (args : PutArgs) (n : ℕ) (ts : List Turn)
    → version_of (register kv args.key) + load ts < 2 ^ 64
    → Past (register kv args.key) args.version
    → 0 < n
    → (performed kv args ts ≡ 0) × Honours (put_loop kv args n ts) 1
unfolding performed put_loop
settled kv args n [] h past pos = (refl, omega arith)
settled kv args n (t ∷ ts) h past pos =
    let (kv', errs, served, bound, keeps) =
      Past-serve_puts args.key args.version kv t.others (omega arith) in
    let past' = keeps past in
    let refused = cas_reply-Past (register kv' args.key) args.version past' in
    let count = version-put args.key kv' args (omega arith) in
    let kept = Past-put args.key args.version kv' args (omega arith) past' in
    ground (
      arith,
      put-eq-some kv' args fresh_put,
      settled kv' args (n + 1) ts (omega arith) past' (omega arith),
      settled (put_state kv' args) args (n + 1) ts (ground arith) kept (omega arith),
    )

-- A request that is performed leaves the register past it.
Past-performed :
    (kv : KvServer) (args : PutArgs)
    → version_of (register kv args.key) + 1 < 2 ^ 64
    → cas_reply (register kv args.key) args.version ≡ ok
    → Past (register (put_state kv args) args.key) args.version
Past-performed kv args small e =
    rw ((put_state-Refines kv args).registers args.key) (ground (arith, eq_refl args.key))

abbrev Kept : PutArgs → List Turn → KvServer → ℕ → Type 0
Kept args ts kv n =
    version_of (register kv args.key) + load ts < 2 ^ 64
    → Honours (put_loop kv args n ts) (performed kv args ts)

put_turn-Honours :
    (args : PutArgs) (t : Turn) (ts : List Turn)
    → ((kv : KvServer) (n : ℕ) → Kept args ts kv n)
    → (kv : KvServer) (n : ℕ) → Kept args (t ∷ ts) kv n
unfolding performed put_loop
put_turn-Honours args t ts rest kv n h =
    let (kv', errs, served, bound, keeps) =
      Past-serve_puts args.key args.version kv t.others (omega arith) in
    let count = version-put args.key kv' args (omega arith) in
    let again = rest (put_state kv' args) (n + 1) (ground arith) in
    ground (
      arith,
      put-eq-some kv' args fresh_put,
      rest kv' (n + 1) (omega arith),
      Past-performed kv' args (omega arith),
      settled (put_state kv' args) args (n + 1) ts (ground arith),
    )

put_loop-Honours : (args : PutArgs) (ts : List Turn) (kv : KvServer) (n : ℕ) → Kept args ts kv n
unfolding performed put_loop
put_loop-Honours args [] kv n h = omega arith
put_loop-Honours args (t ∷ ts) kv n h = put_turn-Honours args t ts (put_loop-Honours args ts) kv n h

-- If the versions of the key stay below 2^64, then whatever the network does and whatever others
-- put in between, a `Clerk.Put` never ends the server process, and: OK means that the server
-- performed the put exactly once, ErrVersion and ErrNoKey that it did not perform it, ErrMaybe and
-- a `Put` that still tries that it performed it at most once; it returns no other error.
pub clerk_put-Honours :
    (kv : KvServer) (args : PutArgs) (ts : List Turn)
    → version_of (register kv args.key) + load ts < 2 ^ 64
    → Honours (clerk_put kv args ts) (performed kv args ts)
unfolding clerk_put
clerk_put-Honours kv args ts h = put_loop-Honours args ts kv 0 h
