-- ===== src/Kvsrv/Clerk/Returns.antt =====
-- The clerk's loops of src/kvsrv1/client.go come to their end with the first call that comes through.
use mit_6_5824_lab.Kvsrv.Clerk.{
  Fate, request_lost, reply_lost, delivered, Turn, returned, put_loop, clerk_put, clerk_get,
}
use mit_6_5824_lab.Kvsrv.Registers.{register, cas_reply, put_state, put-eq-some, serve_puts}
use mit_6_5824_lab.Kvsrv.Server.{KvServer, get}
use mit_6_5824_lab.Kvsrv.Rpc.{Err, err_maybe, is_version, GetArgs, PutArgs, fresh_get, fresh_put}
use mit_6_5824_lab.Prelude.{
  ltb, if◌then◌else◌, Bool-cases, ℕ, ◌+◌, ◌≡◌, refl, ◌⊎◌, inl, inr, Bool, true, false, ◌&&◌, ◌||◌,
  some, List, [], ◌∷◌, arith,
}

abbrev pub is_delivered : Fate → Bool
is_delivered delivered = true
is_delivered _ = false

-- Some call gets to the server and its reply arrives.
abbrev pub any_delivered : List Turn → Bool
any_delivered [] = false
any_delivered (t ∷ ts) = is_delivered t.fate || any_delivered ts

serve_puts-some :
    (kv : KvServer) (ps : List PutArgs)
    → (kv' : KvServer) × (errs : List Err) × (serve_puts kv ps ≡ some (kv', errs))
unfolding serve_puts
serve_puts-some kv [] = (kv, [], refl)
serve_puts-some kv (p ∷ ps) =
    let (last, errs, served) = serve_puts-some (put_state kv p) ps in
    (
      last,
      cas_reply (register kv p.key) p.version ∷ errs,
      ground (arith, put-eq-some kv p fresh_put),
    )

pub Fate-cases : (f : Fate) → ((f ≡ request_lost) ⊎ (f ≡ reply_lost)) ⊎ (f ≡ delivered)
Fate-cases request_lost = inl (inl refl)
Fate-cases reply_lost = inl (inr refl)
Fate-cases delivered = inr refl

put_loop-returns :
    (kv : KvServer) (args : PutArgs) (n : ℕ) (ts : List Turn)
    → any_delivered ts ≡ true
    → (kv' : KvServer) × (err : Err) × (put_loop kv args n ts ≡ returned kv' err)
unfolding put_loop
put_loop-returns kv args n [] h = cc
put_loop-returns kv args n (t ∷ ts) h =
    let (served, errs, e) = serve_puts-some kv t.others in
    let one = put-eq-some served args fresh_put in
    elim (Fate-cases t.fate) [
      | inl (inl request) ↦
          let (kv', err, rest) = put_loop-returns served args (n + 1) ts (ground arith) in
          (kv', err, ground arith)
      | inl (inr reply) ↦
          let (kv', err, rest) =
            put_loop-returns (put_state served args) args (n + 1) ts (ground arith) in
          (kv', err, ground arith)
      | inr through ↦ (
        put_state served args,
        (if is_version (cas_reply (register served args.key) args.version) && ltb 1 (n + 1)
            then err_maybe
            else cas_reply (register served args.key) args.version),
        ground arith,
      )
    ]

clerk_get-returns :
    (kv : KvServer) (args : GetArgs) (ts : List Turn)
    → any_delivered ts ≡ true
    → (kv' : KvServer) × (clerk_get kv args ts ≡ returned kv' (get kv' args fresh_get))
unfolding clerk_get
clerk_get-returns kv args [] h = cc
clerk_get-returns kv args (t ∷ ts) h =
    let (served, errs, e) = serve_puts-some kv t.others in
    elim (Bool-cases (is_delivered t.fate)) [
      | inl now ↦ (served, ground arith)
      | inr later ↦
          let (kv1, rest) = clerk_get-returns served args ts (ground arith) in (kv1, ground arith)
    ]

-- As soon as one call gets to the server and its reply arrives, whatever was lost before it and whatever
-- others put in between, `Clerk.Put` returns, and so does `Clerk.Get`, with the reply of the server's
-- state at that time.
pub clerk_returns :
    (kv : KvServer) (put_args : PutArgs) (get_args : GetArgs) (ts : List Turn)
    → any_delivered ts ≡ true
    → ((kv' : KvServer) × (err : Err) × (clerk_put kv put_args ts ≡ returned kv' err))
      × ((kv' : KvServer) × (clerk_get kv get_args ts ≡ returned kv' (get kv' get_args fresh_get)))
unfolding clerk_put
clerk_returns kv put_args get_args ts h =
    (put_loop-returns kv put_args 0 ts h, clerk_get-returns kv get_args ts h)
