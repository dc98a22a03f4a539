-- ===== src/Kvsrv/Registers/Sequence.antt =====
-- Puts of src/kvsrv1/server.go served one after another, as `kv.mu` orders them.
use mit_6_5824_lab.Prelude.{
  if◌then◌else◌, length, lookup, ℕ, ◌+◌, ◌^◌, ◌<◌, String, ◌≡◌, refl, ◌&&◌, Option, none, some,
  List, [], ◌∷◌, arith, str_eq, eq_iff,
}
use mit_6_5824_lab.Kvsrv.Rpc.{Err, is_ok, PutArgs, fresh_put}
use mit_6_5824_lab.Kvsrv.Server.{KvServer, make_kv_server, put}
use mit_6_5824_lab.Kvsrv.Registers.Defs.{register, cas_reply, version_of}
use mit_6_5824_lab.Kvsrv.Registers.Refines.{put_state, put-eq-some, put_state-Refines}

-- The replies of the puts in order; `none` if one of them ends the process.
unfoldable pub serve_puts : KvServer → List PutArgs → Option (KvServer × List Err)
serve_puts kv [] = some (kv, [])
serve_puts kv (p ∷ ps) = elim (put kv p fresh_put) [
  | none ↦ none
  | some (kv', reply) ↦ elim (serve_puts kv' ps) [
    | none ↦ none
    | some (last, errs) ↦ some (last, reply.err ∷ errs)
  ]
]

-- The puts to `k` that were answered with OK.
unfoldable pub acks : String → List PutArgs → List Err → ℕ
acks k (p ∷ ps) (e ∷ es) = (if str_eq p.key k && is_ok e then 1 else 0) + acks k ps es
acks k _ _ = 0

-- One put adds one to the version of its key if it is answered with OK, and nothing otherwise.
pub version-put :
    (k : String) (kv : KvServer) (p : PutArgs)
    → version_of (register kv k) + 1 < 2 ^ 64
    → version_of (register (put_state kv p) k)
      ≡ (if str_eq p.key k && is_ok (cas_reply (register kv p.key) p.version) then 1 else 0)
        + version_of (register kv k)
version-put k kv p small =
    rw ((put_state-Refines kv p).registers k) (ground (arith, eq_iff p.key k, eq_iff p.key p.key))

version-serve_from :
    (k : String) (kv : KvServer) (ps : List PutArgs)
    → version_of (register kv k) + length ps < 2 ^ 64
    → (kv' : KvServer) × (errs : List Err) × (serve_puts kv ps ≡ some (kv', errs))
      × (version_of (register kv' k) ≡ acks k ps errs + version_of (register kv k))
unfolding serve_puts acks
version-serve_from k kv [] h = (kv, [], refl, omega arith)
version-serve_from k kv (p ∷ ps) h =
    let (last, errs, served, counted) =
      version-serve_from k (put_state kv p) ps (ground (arith, version-put k kv p)) in
    (
      last,
      cas_reply (register kv p.key) p.version ∷ errs,
      ground (arith, put-eq-some kv p fresh_put),
      ground (arith, version-put k kv p),
    )

-- After any puts to a fresh server, fewer than 2^64 of them, none has ended the process, and the
-- version of each key is the number of puts to it that were answered with OK.
pub version-serve_puts :
    (k : String) (ps : List PutArgs)
    → length ps < 2 ^ 64
    → (kv : KvServer) × (errs : List Err) × (serve_puts make_kv_server ps ≡ some (kv, errs))
      × (version_of (register kv k) ≡ acks k ps errs)
unfolding register lookup
version-serve_puts k ps h =
    let (kv, errs, served, counted) = version-serve_from k make_kv_server ps (omega arith) in
    (kv, errs, served, omega arith)
