-- ===== src/Kvsrv/Clerk.antt =====
-- src/kvsrv1/client.go: the clerk, which calls the server until a call comes through.
-- A call's fate is the network's choice: `src/labrpc/labrpc.go` may lose the request (the server
-- never runs it) or the reply (the server has run it), and `Call` then returns false. Between two
-- calls of this clerk the server may serve any puts of other clients.
pub mod Contract
pub mod Returns
pub mod Single
use mit_6_5824_lab.Prelude.{
  ltb, if◌then◌else◌, ℕ, ◌+◌, ◌≡◌, refl, ◌⊎◌, inl, inr, false, ◌&&◌, none, some, List, [], ◌∷◌,
}
use mit_6_5824_lab.Kvsrv.Rpc.{
  Err, err_maybe, is_version, GetArgs, GetReply, PutArgs, fresh_get, fresh_put,
}
use mit_6_5824_lab.Kvsrv.Server.{KvServer, get, put}
use mit_6_5824_lab.Kvsrv.Registers.{serve_puts}

pub data Fate : Type 0 where
  request_lost reply_lost delivered : Fate

-- The puts of others that the server serves before it, and the fate of one call.
pub record Turn : Type 0 where
  pub others : List PutArgs
  pub fate : Fate

-- What has become of a clerk's operation when the turns are used up.
pub data Outcome {ℓ} (A : Type ℓ) : Type ℓ where
  retrying : KvServer → Outcome A
  returned : KvServer → A → Outcome A
  fatal : Outcome A

-- Clerk.Put: `request_count` is the local variable of that name, on entry to the loop's body.
unfoldable pub put_loop : KvServer → PutArgs → ℕ → List Turn → Outcome Err
put_loop kv args request_count [] = retrying kv
put_loop kv args request_count (t ∷ ts) = elim (serve_puts kv t.others) [
  | none ↦ fatal
  | some (kv', _) ↦ elim t.fate [
    | request_lost ↦ put_loop kv' args (request_count + 1) ts
    | reply_lost ↦ elim (put kv' args fresh_put) [
      | none ↦ fatal
      | some (kv'', _) ↦ put_loop kv'' args (request_count + 1) ts
    ]
    | delivered ↦ elim (put kv' args fresh_put) [
      | none ↦ fatal
      | some (kv'', reply) ↦
          returned kv''
            (if is_version reply.err && ltb 1 (request_count + 1) then err_maybe else reply.err)
    ]
  ]
]

unfoldable pub clerk_put : KvServer → PutArgs → List Turn → Outcome Err
clerk_put kv args ts = put_loop kv args 0 ts

-- Clerk.Get
unfoldable pub clerk_get : KvServer → GetArgs → List Turn → Outcome GetReply
clerk_get kv args [] = retrying kv
clerk_get kv args (t ∷ ts) = elim (serve_puts kv t.others) [
  | none ↦ fatal
  | some (kv', _) ↦ elim t.fate [
    | delivered ↦ returned kv' (get kv' args fresh_get)
    | _ ↦ clerk_get kv' args ts
  ]
]

-- The three ways an operation can go.
pub Outcome-cases {ℓ} :
    {A : Type ℓ} (o : Outcome A)
    → (((kv : KvServer) × (o ≡ retrying kv)) ⊎ (o ≡ fatal))
      ⊎ ((kv : KvServer) × (a : A) × (o ≡ returned kv a))
Outcome-cases (retrying kv) = inl (inl (kv, refl))
Outcome-cases fatal = inl (inr refl)
Outcome-cases (returned kv a) = inr (kv, a, refl)
