-- ===== src/Kvtest/Puts.antt =====
-- One step of a client of src/kvtest1/kvtest.go, with the server of src/kvsrv1/server.go.
use mit_6_5824_lab.Kvsrv.Clerk.Single.{one_turn, register_self, put_loop-one}
use mit_6_5824_lab.Kvtest.Moves.{Written, Fits, Moves, stays, writes}
use mit_6_5824_lab.Prelude.{
  ltb, ◌==◌, if◌then◌else◌, Bool-cases, ℕ, zero, suc, ◌+◌, ◌^◌, ◌≤◌, ◌<◌, String, ◌≡◌, refl, ◌∙◌,
  ◌≢◌, ◌⊎◌, inl, inr, Option, none, some, arith,
}
use mit_6_5824_lab.Kvsrv.Rpc.{Err, ok, err_version, err_maybe, PutArgs}
use mit_6_5824_lab.Kvsrv.Server.{Entry, KvServer, get}
use mit_6_5824_lab.Kvsrv.Clerk.{
  Fate, request_lost, reply_lost, delivered, retrying, returned, clerk_get,
}
use mit_6_5824_lab.Kvsrv.Registers.{register, cas, cas_reply, version_of, put_state, serve_puts}
use mit_6_5824_lab.Kvtest.Clients.{
  EntryV, ClntRes, Phase, idle, putting, getting, Client, get_json, put_turn, after_read, get_turn,
  client_turn,
}

cas_cases :
    (enc : EntryV → String) (me ver : ℕ) (r : Option Entry)
    → Written enc r
    → (version_of r ≡ 0 → ver ≡ 0)
    → version_of r + 1 < 2 ^ 64
    → ((ver ≡ version_of r)
        × (cas r (enc (record { id = me; v = ver })) ver
            ≡ some (record { value = enc (record { id = me; v = ver }); version = ver + 1 }))
        × (cas_reply r ver ≡ ok))
      ⊎ ((ver ≢ version_of r)
          × (cas r (enc (record { id = me; v = ver })) ver ≡ r)
          × (cas_reply r ver ≡ err_version))
cas_cases enc me zero none w f small = inl (refl, refl, refl)
cas_cases enc me (suc ver) none w f small = absurd (ground (arith, f refl))
cas_cases enc me ver (some entry) w f small = elim (Bool-cases (ver == entry.version)) [
  | inl e ↦ inl (ground arith, ground arith, ground arith)
  | inr d ↦ inr (ground arith, ground arith, ground arith)
]

abbrev client_at : ℕ → Phase → ClntRes → Client
client_at ver phase res = record { ver = ver; phase = phase; res = res }

abbrev pub puts_of : (EntryV → String) → String → ℕ → ℕ → PutArgs
puts_of enc key me ver = record {
  key = key;
  value = enc (record { id = me; v = ver });
  version = ver;
}

put_turn_lem :
    (enc : EntryV → String) (key : String) (me count : ℕ) (fate : Fate) (kv : KvServer) (ver : ℕ)
    (res : ClntRes)
    → Written enc (register kv key)
    → Fits (version_of (register kv key)) (client_at ver (putting count) res)
    → version_of (register kv key) + 1 < 2 ^ 64
    → (kv' : KvServer) × (c' : Client) × (put_turn enc key me count fate kv
          (client_at ver (putting count) res)
        ≡ some (kv', c'))
      × Moves enc (register kv key) (client_at ver (putting count) res) (register kv' key) c'
unfolding put_turn
put_turn_lem enc key me count request_lost kv ver res w f small = (
  kv,
  client_at ver (putting (count + 1)) res,
  ground (arith, (put_loop-one kv (puts_of enc key me ver) count).0),
  stays enc _ _ _ _ w refl (ground arith) (omega arith) f (omega arith),
)
put_turn_lem enc key me count reply_lost kv ver res w f small = (
  put_state kv (puts_of enc key me ver),
  client_at ver (putting (count + 1)) res,
  ground (arith, (put_loop-one kv (puts_of enc key me ver) count).1),
  elim (cas_cases enc me ver (register kv key) w (λ z. ground (arith, f.0)) small) [
    | inl (hit, wrote, reply) ↦
        writes enc _ _ _ _ me ver hit (register_self kv (puts_of enc key me ver) ∙ wrote)
          (ground arith) (omega arith) (omega arith) refl
    | inr (miss, same, reply) ↦
        stays enc _ _ _ _ w (register_self kv (puts_of enc key me ver) ∙ same) (ground arith)
          (omega arith) f (omega arith)
  ],
)
put_turn_lem enc key me count delivered kv ver res w f small =
    elim (cas_cases enc me ver (register kv key) w (λ z. ground (arith, f.0)) small) [
      | inl (hit, wrote, reply) ↦ (
        put_state kv (puts_of enc key me ver),
        client_at ver (getting ok) res,
        ground (arith, (put_loop-one kv (puts_of enc key me ver) count).2),
        writes enc _ _ _ _ me ver hit (register_self kv (puts_of enc key me ver) ∙ wrote)
            (ground arith) (ground arith) (omega arith) refl,
      )
      | inr (miss, same, reply) ↦ (
        put_state kv (puts_of enc key me ver),
        client_at ver (getting (if ltb 1 (count + 1) then err_maybe else err_version)) res,
        ground (arith, (put_loop-one kv (puts_of enc key me ver) count).2),
        stays enc _ _ _ _ w (register_self kv (puts_of enc key me ver) ∙ same) (ground arith)
            (ground arith) (f.0, λ z. absurd (ground (arith, f.0))) (omega arith),
      )
    ]

-- What a call of GetJson that comes through returns.
pub get_json-delivered :
    (enc : EntryV → String) (dec : String → Option EntryV) (key : String) (kv : KvServer)
    (r : Option Entry)
    → ((e : EntryV) → dec (enc e) ≡ some e)
    → register kv key ≡ r
    → Written enc r
    → 1 ≤ version_of r
    → (id : ℕ) × (v : ℕ) × (version_of r ≡ v + 1)
      × (get_json dec key (one_turn delivered) kv
          ≡ returned kv (record { id = id; v = v }, version_of r))
unfolding get_json clerk_get serve_puts get register
get_json-delivered enc dec key kv none back there w some_put = absurd (omega arith)
get_json-delivered enc dec key kv (some entry) back there (id, v, e) some_put =
    (id, v, ground arith, ground (arith, back (record { id = id; v = v })))

pub get_json-lost :
    {V : Type 0} (dec : String → Option V) (key : String) (kv : KvServer)
    → (get_json dec key (one_turn request_lost) kv ≡ retrying kv)
      × (get_json dec key (one_turn reply_lost) kv ≡ retrying kv)
unfolding get_json clerk_get serve_puts
get_json-lost dec key kv = (refl, refl)

get_turn_lem :
    (enc : EntryV → String) (dec : String → Option EntryV) (key : String) (me : ℕ) (err : Err)
    (fate : Fate) (kv : KvServer) (ver : ℕ) (res : ClntRes)
    → ((e : EntryV) → dec (enc e) ≡ some e)
    → Written enc (register kv key)
    → Fits (version_of (register kv key)) (client_at ver (getting err) res)
    → version_of (register kv key) + 1 < 2 ^ 64
    → (kv' : KvServer) × (c' : Client) × (get_turn dec key me err fate kv
          (client_at ver (getting err) res)
        ≡ some (kv', c'))
      × Moves enc (register kv key) (client_at ver (getting err) res) (register kv' key) c'
unfolding get_turn
get_turn_lem enc dec key me err request_lost kv ver res back w f small = (
  kv,
  client_at ver (getting err) res,
  ground (arith, (get_json-lost dec key kv).0),
  stays enc _ _ _ _ w refl (omega arith) (omega arith) f (omega arith),
)
get_turn_lem enc dec key me err reply_lost kv ver res back w f small = (
  kv,
  client_at ver (getting err) res,
  ground (arith, (get_json-lost dec key kv).1),
  stays enc _ _ _ _ w refl (omega arith) (omega arith) f (omega arith),
)
get_turn_lem enc dec key me err delivered kv ver res back w f small =
    let (id, v, at, e) =
      get_json-delivered enc dec key kv (register kv key) back refl w (ground (arith, f.1)) in
    (
      kv,
      after_read err (version_of (register kv key)) (client_at ver (getting err) res),
      ground (arith, e),
      stays enc _ _ _ _ w refl (ground arith) (ground arith)
          (ground arith, λ z. absurd (omega (arith, at))) (ground arith),
    )

client_turn_at :
    (enc : EntryV → String) (dec : String → Option EntryV) (key : String) (me : ℕ) (fate : Fate)
    (kv : KvServer) (ver : ℕ) (phase : Phase) (res : ClntRes)
    → ((e : EntryV) → dec (enc e) ≡ some e)
    → Written enc (register kv key)
    → Fits (version_of (register kv key)) (client_at ver phase res)
    → version_of (register kv key) + 1 < 2 ^ 64
    → (kv' : KvServer) × (c' : Client) × (client_turn enc dec key me fate kv
          (client_at ver phase res)
        ≡ some (kv', c'))
      × Moves enc (register kv key) (client_at ver phase res) (register kv' key) c'
unfolding client_turn
client_turn_at enc dec key me fate kv ver idle res back w f small = (
  kv,
  client_at ver (putting 0) res,
  refl,
  stays enc _ _ _ _ w refl (ground arith) (omega arith) f (omega arith),
)
client_turn_at enc dec key me fate kv ver (putting count) res back w f small =
    put_turn_lem enc key me count fate kv ver res w f small
client_turn_at enc dec key me fate kv ver (getting err) res back w f small =
    get_turn_lem enc dec key me err fate kv ver res back w f small

-- One turn of a client ends no test, and moves the version of the key and the results together.
pub client_turn_lem :
    (enc : EntryV → String) (dec : String → Option EntryV) (key : String) (me : ℕ) (fate : Fate)
    (kv : KvServer) (c : Client)
    → ((e : EntryV) → dec (enc e) ≡ some e)
    → Written enc (register kv key)
    → Fits (version_of (register kv key)) c
    → version_of (register kv key) + 1 < 2 ^ 64
    → (kv' : KvServer) × (c' : Client) × (client_turn enc dec key me fate kv c ≡ some (kv', c'))
      × Moves enc (register kv key) c (register kv' key) c'
client_turn_lem enc dec key me fate kv c back w f small =
    client_turn_at enc dec key me fate kv c.ver c.phase c.res back w f small
