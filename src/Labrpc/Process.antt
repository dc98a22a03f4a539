-- ===== src/Labrpc/Process.antt =====
-- src/labrpc/labrpc.go: processReq, the life of one request on the network.
use mit_6_5824_lab.Prelude.{
  ltb, if◌then◌else◌, Option-cases, is_some, ℕ, ◌%◌, String, ◌≡◌, inl, inr, Bool, true, false, not,
  ◌&&◌, ◌||◌, none, some, arith,
}
use mit_6_5824_lab.Labrpc.Network.{
  Network, is_enabled, connection, server_at, EndInfo, read_endname_info, is_server_dead,
}

-- What processReq draws: the two values that it compares with 100 of 1000, that for 600 of 900, and
-- whether the handler's reply comes in before the loop sees that the server is dead.
pub record Draws : Type 0 where
  pub drop_request : ℕ
  pub drop_reply : ℕ
  pub reorder : ℕ
  pub handler_done : Bool

-- What comes of a request: whether the handler is run, whether the client gets its reply (else it
-- gets `replyMsg{false, nil}`), and whether that reply is held back for a while.
pub record Verdict : Type 0 where
  pub executed : Bool
  pub reply_ok : Bool
  pub delayed : Bool

-- processReq after the handler was started; `later` is the network at the last check.
unfoldable pub finish_req : EndInfo → String → String → Network → Draws → Verdict
unfolding is_server_dead
finish_req info endname servername later d =
    if not d.handler_done || is_server_dead endname servername info.server later
    then record { executed = true; reply_ok = false; delayed = false }
    else if not info.reliable && ltb (d.drop_reply % 1000) 100
    then record { executed = true; reply_ok = false; delayed = false }
    else if info.longreordering && ltb (d.reorder % 900) 600
    then record { executed = true; reply_ok = true; delayed = true }
    else record { executed = true; reply_ok = true; delayed = false }

-- processReq: `rn` is the network when the request comes in, `later` when its server is looked at
-- for the last time.
unfoldable pub process_req : String → Network → Network → Draws → Verdict
unfolding read_endname_info finish_req
process_req endname rn later d =
    let info = read_endname_info endname rn in
    elim info.servername [
      | none ↦ record { executed = false; reply_ok = false; delayed = false }
      | some servername ↦
          if info.enabled && is_some info.server
          then (if not info.reliable && ltb (d.drop_request % 1000) 100
              then record { executed = false; reply_ok = false; delayed = false }
              else finish_req info endname servername later d)
          else record { executed = false; reply_ok = false; delayed = false }
    ]

-- A reply that the client gets comes from a handler that was run, through an end that was enabled
-- when the request came in and at the last check, connected to a server that was there and still
-- is the same at the last check.
pub process_req_sound :
    (endname : String) (rn later : Network) (d : Draws)
    → (process_req endname rn later d).reply_ok ≡ true
    → ((process_req endname rn later d).executed ≡ true)
      × (is_enabled endname rn ≡ true)
      × (is_enabled endname later ≡ true)
      × ((s : String) × (i : ℕ) × (connection endname rn ≡ some s)
          × (server_at s rn ≡ some i)
          × (server_at s later ≡ some i))
unfolding process_req
process_req_sound endname rn later d h = elim (Option-cases (connection endname rn)) [
  | inl free ↦ absurd (ground arith)
  | inr (s, e) ↦ elim (Option-cases (server_at s rn)) [
    | inl gone ↦ absurd (ground arith)
    | inr (i, f) ↦ (ground arith, ground arith, ground arith, (s, i, e, f, ground arith))
  ]
]

-- On a reliable network the client gets the reply of every request through an end that is enabled
-- and connected to a server, if the handler comes to its end and until then the end stays enabled
-- and the server in place.
pub process_req_reliable :
    (endname s : String) (i : ℕ) (rn later : Network) (d : Draws)
    → rn.reliable ≡ true
    → is_enabled endname rn ≡ true
    → connection endname rn ≡ some s
    → server_at s rn ≡ some i
    → d.handler_done ≡ true
    → is_enabled endname later ≡ true
    → server_at s later ≡ some i
    → (process_req endname rn later d).reply_ok ≡ true
unfolding process_req
process_req_reliable endname s i rn later d r e c t f e' t' = ground arith
