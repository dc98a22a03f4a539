-- ===== src/Kvsrv/Server.antt =====
-- src/kvsrv1/server.go: the server. Each handler runs under `kv.mu` from its first line to its
-- last, so it is one atomic step on the state. `none` is `log.Fatal`, which ends the process.
use mit_6_5824_lab.Prelude.{
  ℕ, ◌+◌, String, Bool, true, Option, none, some, Dict, lookup, insert, [], ◌==◌, if◌then◌else◌,
  string_eq,
}
use mit_6_5824_lab.Kvsrv.Rpc.{
  ok, err_no_key, err_version, u64, GetArgs, GetReply, PutArgs, PutReply,
}

pub record Entry : Type 0 where
  pub value : String
  pub version : ℕ

pub record KvServer : Type 0 where
  pub kv_store : Dict String Entry

-- MakeKVServer
abbrev pub make_kv_server : KvServer
make_kv_server = record { kv_store = [] }

-- AddRecord
unfoldable pub add_record : KvServer → String → String → ℕ → KvServer
add_record kv key value version = record {
  kv_store = insert key (record { value = value; version = u64 (version + 1) }) kv.kv_store;
}

-- UpdateRecord
unfoldable pub update_record : KvServer → String → String → Option (KvServer × Bool)
update_record kv key value = elim (lookup key kv.kv_store) [
  | none ↦ none
  | some entry_curr ↦ some (
    record {
      kv_store =
          insert key (record { value = value; version = u64 (entry_curr.version + 1) }) kv.kv_store;
    },
    true,
  )
]

-- Get: on a missing key the value and the version of the reply are left as they were.
unfoldable pub get : KvServer → GetArgs → GetReply → GetReply
get kv args reply = elim (lookup args.key kv.kv_store) [
  | some entry ↦ record { value = entry.value; version = entry.version; err = ok }
  | none ↦ record reply { err = err_no_key }
]

-- Put
unfoldable pub put : KvServer → PutArgs → PutReply → Option (KvServer × PutReply)
unfolding add_record update_record
put kv args reply = elim (lookup args.key kv.kv_store) [
  | none ↦
      if args.version == 0
      then some (add_record kv args.key args.value args.version, record { err = ok })
      else some (kv, record { err = err_no_key })
  | some entry ↦
      if args.version == entry.version
      then (elim (update_record kv args.key args.value) [
        | none ↦ none
        | some (kv', _) ↦ some (kv', record { err = ok })
      ])
      else some (kv, record { err = err_version })
]
