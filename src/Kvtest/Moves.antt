-- ===== src/Kvtest/Moves.antt =====
-- How a step of a client of src/kvtest1/kvtest.go moves the version of the key at the server of
-- src/kvsrv1/server.go and the results of the client.
use mit_6_5824_lab.Prelude.{
  ltb, if◌then◌else◌, ℕ, ◌+◌, ◌≤◌, String, ◌≡◌, refl, ◌&&◌, ◌||◌, Option, none, some, arith,
}
use mit_6_5824_lab.Kvsrv.Rpc.{is_ok, is_maybe}
use mit_6_5824_lab.Kvsrv.Server.{Entry}
use mit_6_5824_lab.Kvsrv.Registers.{version_of}
use mit_6_5824_lab.Kvtest.Clients.{EntryV, idle, putting, getting, Client}

-- A register of the test: a value has the version that its writer named.
abbrev pub Written : (EntryV → String) → Option Entry → Type 0
Written enc none = Unit
Written enc (some entry) =
    (id : ℕ) × (v : ℕ) × (entry
      ≡ record { value = enc (record { id = id; v = v }); version = v + 1 })

-- 1 if the client's current put may be among those that made the version `v`.
abbrev pub pending : ℕ → Client → ℕ
pending v c = elim c.phase [
  | idle ↦ 0
  | putting count ↦ if ltb 0 count && ltb c.ver v then 1 else 0
  | getting err ↦ if is_ok err || is_maybe err then 1 else 0
]

-- The puts of a client that may have been performed, and those that have surely been.
abbrev pub most : ℕ → Client → ℕ
most v c = c.res.nok + c.res.nmaybe + pending v c

abbrev pub least : Client → ℕ
least c = c.res.nok + elim c.phase [ getting err ↦ if is_ok err then 1 else 0 | _ ↦ 0 ]

-- 0 as long as no put of the client has been answered.
abbrev pub answered : Client → ℕ
answered c = c.ver + c.res.nok + c.res.nmaybe + elim c.phase [ getting err ↦ 1 | _ ↦ 0 ]

abbrev pub Fits : ℕ → Client → Type 0
Fits v c = (c.ver ≤ v) × (v ≡ 0 → answered c ≡ 0)

pub record Moves (enc : EntryV → String) (r : Option Entry) (c : Client) (r' : Option Entry)
    (c' : Client) : Type 0 where
  pub written : Written enc r'
  pub rises : version_of r ≤ version_of r'
  pub by_one : version_of r' ≤ version_of r + 1
  pub at_most : most (version_of r) c + version_of r' ≤ most (version_of r') c' + version_of r
  pub at_least : least c' + version_of r ≤ least c + version_of r'
  pub fits : Fits (version_of r') c'
  pub counts : c'.res.nok + c'.res.nmaybe ≤ c.res.nok + c.res.nmaybe + 1

-- A step that leaves the register as it is.
pub stays :
    (enc : EntryV → String) (r r' : Option Entry) (c c' : Client)
    → Written enc r
    → r' ≡ r
    → most (version_of r) c ≤ most (version_of r) c'
    → least c' ≤ least c
    → Fits (version_of r) c'
    → c'.res.nok + c'.res.nmaybe ≤ c.res.nok + c.res.nmaybe + 1
    → Moves enc r c r' c'
stays enc r r' c c' w same m l f n = rw same (record {
  written = w;
  rises = omega arith;
  by_one = omega arith;
  at_most = omega (arith, m);
  at_least = omega (arith, l);
  fits = f;
  counts = n;
})

-- A step that writes the register.
pub writes :
    (enc : EntryV → String) (r r' : Option Entry) (c c' : Client) (id ver : ℕ)
    → ver ≡ version_of r
    → r' ≡ some (record { value = enc (record { id = id; v = ver }); version = ver + 1 })
    → most (version_of r) c + 1 ≤ most (ver + 1) c'
    → least c' ≤ least c + 1
    → c'.ver ≤ ver + 1
    → c'.res ≡ c.res
    → Moves enc r c r' c'
writes enc r r' c c' id ver hit wrote m l n s = rw wrote (record {
  written = (id, ver, refl);
  rises = omega arith;
  by_one = omega arith;
  at_most = omega (arith, m);
  at_least = omega (arith, l);
  fits = (n, λ e. absurd (omega arith));
  counts = rw s (omega arith);
})
