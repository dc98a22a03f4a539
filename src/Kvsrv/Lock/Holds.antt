-- ===== src/Kvsrv/Lock/Holds.antt =====
-- What a call of Acquire in src/kvsrv1/lock/lock.go leaves in the server.
use mit_6_5824_lab.Kvsrv.Server.{Entry, KvServer, get}
use mit_6_5824_lab.Kvsrv.Rpc.{
  Err, unset, ok, err_no_key, err_version, err_maybe, err_wrong_leader, err_wrong_group, is_ok,
  GetReply, PutArgs, fresh_put,
}
use mit_6_5824_lab.Kvsrv.Clerk.{Turn, returned, put_loop, clerk_put, clerk_get, Outcome-cases}
use mit_6_5824_lab.Kvsrv.Lock.{read_until_success, Round, try_put, acquire_round, acquire}
use mit_6_5824_lab.Prelude.{
  Bool-cases, Option-cases, ℕ, zero, suc, ◌+◌, String, ◌≡◌, refl, ap, ◌∙◌, inl, inr, Bool, true,
  false, Option, none, some, List, [], ◌∷◌, arith, eq_iff,
}
use mit_6_5824_lab.Kvsrv.Registers.{
  register, cas, cas_reply, put_state, put-eq-some, put_state-Refines, serve_puts,
}

-- The value that a register shows.
abbrev pub value_of : Option Entry → Option String
value_of none = none
value_of (some entry) = some entry.value

cas-ok :
    (o : Option Entry) (value : String) (version : ℕ)
    → cas_reply o version ≡ ok
    → value_of (cas o value version) ≡ some value
cas-ok none value zero h = refl
cas-ok none value (suc n) h = cc
cas-ok (some entry) value version h = ground arith

put-ok :
    (kv : KvServer) (args : PutArgs)
    → cas_reply (register kv args.key) args.version ≡ ok
    → value_of (register (put_state kv args) args.key) ≡ some args.value
put-ok kv args h = ground (
  arith,
  (put_state-Refines kv args).registers args.key,
  eq_iff args.key args.key,
  cas-ok (register kv args.key) args.value args.version h,
)

-- A put that returns OK leaves its value in the key's register.
put_loop-ok :
    (kv : KvServer) (args : PutArgs) (n : ℕ) (ts : List Turn) {kv' : KvServer}
    → put_loop kv args n ts ≡ returned kv' ok
    → value_of (register kv' args.key) ≡ some args.value
unfolding put_loop
put_loop-ok kv args n [] h = cc
put_loop-ok kv args n (t ∷ ts) {kv'} h = elim (Option-cases (serve_puts kv t.others)) [
  | inl gone ↦ absurd (ground arith)
  | inr ((served, errs), e) ↦ ground (
    arith,
    put-eq-some served args fresh_put,
    put-ok served args,
    λ (g : put_loop served args (n + 1) ts ≡ returned kv' ok). put_loop-ok served args (n + 1) ts g,
    λ (g : put_loop (put_state served args) args (n + 1) ts ≡ returned kv' ok).
        put_loop-ok (put_state served args) args (n + 1) ts g,
  )
]

-- A get that returns shows the register that the server has then.
clerk_get-register :
    (kv : KvServer) (key : String) (ts : List Turn) {kv' : KvServer} {reply : GetReply}
    → clerk_get kv (record { key = key }) ts ≡ returned kv' reply
    → is_ok reply.err ≡ true
    → value_of (register kv' key) ≡ some reply.value
unfolding clerk_get get register
clerk_get-register kv key [] h o = cc
clerk_get-register kv key (t ∷ ts) {kv'} {reply} h o =
    elim (Option-cases (serve_puts kv t.others)) [
      | inl gone ↦ absurd (ground arith)
      | inr ((served, errs), e) ↦ ground (
        arith,
        λ (g : clerk_get served (record { key = key }) ts ≡ returned kv' reply).
            clerk_get-register served key ts g o,
      )
    ]

read_until_success-register :
    (kv : KvServer) (key : String) (rounds : List (List Turn)) {kv' : KvServer} {reply : GetReply}
    → read_until_success kv key rounds ≡ returned kv' reply
    → value_of (register kv' key) ≡ some reply.value
unfolding read_until_success
read_until_success-register kv key [] h = cc
read_until_success-register kv key (ts ∷ rounds) {kv'} {reply} h =
    elim (Outcome-cases (clerk_get kv (record { key = key }) ts)) [
      | inl (inl (s, e)) ↦ absurd (ground arith)
      | inl (inr e) ↦ absurd (ground arith)
      | inr (s, r, e) ↦ ground (
        arith,
        clerk_get-register kv key ts {kv' = s} {reply = r} e,
        λ (g : read_until_success s key rounds ≡ returned kv' reply).
            read_until_success-register s key rounds g,
      )
    ]

ok_of : (err : Err) → is_ok err ≡ true → err ≡ ok
ok_of ok h = refl
ok_of unset h = cc
ok_of err_no_key h = cc
ok_of err_version h = cc
ok_of err_maybe h = cc
ok_of err_wrong_leader h = cc
ok_of err_wrong_group h = cc

clerk_put-ok :
    (kv : KvServer) (args : PutArgs) (ts : List Turn) {kv' : KvServer} {err : Err}
    → clerk_put kv args ts ≡ returned kv' err
    → is_ok err ≡ true
    → value_of (register kv' args.key) ≡ some args.value
unfolding clerk_put
clerk_put-ok kv args ts {kv'} {err} h good =
    put_loop-ok kv args 0 ts (h ∙ ap (returned kv') (ok_of err good))

-- A put that sets `success` leaves its value.
try_put-register :
    (kv : KvServer) (key : String) (r : Round) (version : ℕ) (reread : Bool) {kv' : KvServer}
    → try_put kv key r version reread ≡ returned kv' true
    → value_of (register kv' key) ≡ some r.val_written
unfolding try_put
try_put-register kv key r version reread {kv'} h =
    let args : PutArgs = record { key = key; value = r.val_written; version = version } in
    elim (Outcome-cases (clerk_put kv args r.put_turns)) [
      | inl (inl (s, e)) ↦ absurd (ground arith)
      | inl (inr e) ↦ absurd (ground arith)
      | inr (s, err, e) ↦ elim (Bool-cases (is_ok err)) [
        | inl good ↦
            let kept = clerk_put-ok kv args r.put_turns {kv' = s} {err = err} e good in ground arith
        | inr bad ↦ elim (Outcome-cases (read_until_success s key r.reread_turns)) [
          | inl (inl (u, f)) ↦ absurd (ground arith)
          | inl (inr f) ↦ absurd (ground arith)
          | inr (u, reply, f) ↦
              let shown =
                read_until_success-register s key r.reread_turns {kv' = u} {reply = reply} f in
              ground (arith, eq_iff reply.value r.val_written)
        ]
      ]
    ]

acquire_round-register :
    (kv : KvServer) (key : String) (r : Round) {kv' : KvServer}
    → acquire_round kv key r ≡ returned kv' true
    → value_of (register kv' key) ≡ some r.val_written
unfolding acquire_round
acquire_round-register kv key r {kv'} h =
    elim (Outcome-cases (clerk_get kv (record { key = key }) r.get_turns)) [
      | inl (inl (s, e)) ↦ absurd (ground arith)
      | inl (inr e) ↦ absurd (ground arith)
      | inr (s, reply, e) ↦ ground (
        arith,
        λ (g : try_put s key r 0 false ≡ returned kv' true). try_put-register s key r 0 false g,
        λ (g : try_put s key r reply.version true ≡ returned kv' true).
            try_put-register s key r reply.version true g,
      )
    ]

-- When Acquire returns, whatever the network did and whatever others put in between, the key's
-- value in the server is the value that Acquire has written in its last round.
pub acquire-register :
    (kv : KvServer) (key : String) (rounds : List Round) {kv' : KvServer} {value : String}
    → acquire kv key rounds ≡ returned kv' value
    → value_of (register kv' key) ≡ some value
unfolding acquire
acquire-register kv key [] h = cc
acquire-register kv key (r ∷ rounds) {kv'} {value} h =
    elim (Outcome-cases (acquire_round kv key r)) [
      | inl (inl (s, e)) ↦ absurd (ground arith)
      | inl (inr e) ↦ absurd (ground arith)
      | inr (s, true, e) ↦ let held = acquire_round-register kv key r {kv' = s} e in ground arith
      | inr (s, false, e) ↦ acquire-register s key rounds (ground arith)
    ]
