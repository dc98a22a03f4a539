-- ===== src/Kvsrv/Registers/Defs.antt =====
-- The specification: a register that is absent, or holds a value and its version.
use mit_6_5824_lab.Prelude.{
  ℕ, zero, suc, ◌+◌, String, Option, none, some, ◌==◌, if◌then◌else◌, lookup, string_eq,
}
use mit_6_5824_lab.Kvsrv.Rpc.{Err, ok, err_no_key, err_version, u64}
use mit_6_5824_lab.Kvsrv.Server.{Entry, KvServer}

-- The register of a key, as the server stores it.
unfoldable pub register : KvServer → String → Option Entry
register kv k = lookup k kv.kv_store

-- The register after a put of `value` that names `version`, and the reply.
abbrev pub cas : Option Entry → String → ℕ → Option Entry
cas none value zero = some (record { value = value; version = 1 })
cas none value (suc _) = none
cas (some entry) value version =
    if version == entry.version
    then some (record { value = value; version = u64 (entry.version + 1) })
    else some entry

abbrev pub cas_reply : Option Entry → ℕ → Err
cas_reply none zero = ok
cas_reply none (suc _) = err_no_key
cas_reply (some entry) version = if version == entry.version then ok else err_version

-- The version that a register shows to clients: an absent one counts as version 0.
abbrev pub version_of : Option Entry → ℕ
version_of none = 0
version_of (some entry) = entry.version
