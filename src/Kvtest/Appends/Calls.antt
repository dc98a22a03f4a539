-- ===== src/Kvtest/Appends/Calls.antt =====
-- One call of a client of src/kvtest1/kvtest.go that appends, with the server of src/kvsrv1/server.go.
use mit_6_5824_lab.Kvsrv.Lock.Steps.{error_of}
use mit_6_5824_lab.Prelude.{
  ltb, ◌==◌, Bool-cases, length, ℕ, ◌+◌, ◌^◌, ◌<◌, String, ◌≡◌, refl, ap, ◌∙◌, ◌≢◌, ◌⊎◌, inl, inr,
  Option, some, List, [], ◌∷◌, ◌++◌, arith,
}
use mit_6_5824_lab.Kvsrv.Clerk.Single.{one_turn, register_self, put_loop-one, clerk_get-one}
use mit_6_5824_lab.Kvsrv.Rpc.{ok, err_version, PutArgs}
use mit_6_5824_lab.Kvsrv.Server.{KvServer}
use mit_6_5824_lab.Kvsrv.Clerk.{Fate, request_lost, reply_lost, delivered, returned}
use mit_6_5824_lab.Kvsrv.Registers.{register, cas_reply, put_state}
use mit_6_5824_lab.Kvtest.Clients.{ClntRes, get_json}
use mit_6_5824_lab.Kvtest.Puts.{get_json-lost}
use mit_6_5824_lab.Kvtest.Appends.{
  EntryN, Stage, waiting, reading, writing, Appender, after_put, write_turn, read_turn, append_turn,
}
use mit_6_5824_lab.Kvtest.Appends.Turns.{
  list_at, UpToDate, Fits, Stepped, length_snoc, appended, UpToDate-append, same_list,
}

abbrev appender_at : Stage → ℕ → ClntRes → Appender
appender_at stage i res = record { stage = stage; i = i; res = res }

abbrev args_of : (List EntryN → String) → List EntryN → ℕ → PutArgs
args_of enc es ver = record { key = "k"; value = enc es; version = ver }

put_effect :
    (enc : List EntryN → String) (es es' : List EntryN) (ver : ℕ) (e : EntryN) (kv : KvServer)
    → register kv "k" ≡ list_at enc es
    → UpToDate es e (writing es' ver 0)
    → length es + 2 < 2 ^ 64
    → ((ver ≡ length es + 1)
        × (register (put_state kv (args_of enc es' ver)) "k" ≡ list_at enc (es ++ (e ∷ [])))
        × (cas_reply (register kv "k") ver ≡ ok))
      ⊎ ((ver ≢ length es + 1)
          × (register (put_state kv (args_of enc es' ver)) "k" ≡ list_at enc es)
          × (cas_reply (register kv "k") ver ≡ err_version))
put_effect enc es es' ver e kv there up small =
    let after = register_self kv (args_of enc es' ver) in
    let len = length_snoc es e in
    elim (Bool-cases (ver == length es + 1)) [
      | inl hit ↦
          let at : ver ≡ length es + 1 = ground arith in
          let same = up.1 at in
          inl (
            at,
            after
                ∙ (rw there (
                    rw hit (
                      rw same (
                        rw len (
                          ap (λ v. some (record { value = enc (es ++ (e ∷ [])); version = v }))
                            (omega arith)))))),
            rw there (rw hit refl),
          )
      | inr miss ↦ inr (ground arith, after ∙ (rw there (rw miss refl)), rw there (rw miss refl))
    ]

write_turn_lem :
    (enc : List EntryN → String) (me : ℕ) (es es' : List EntryN) (ver count : ℕ) (fate : Fate)
    (kv : KvServer) (i : ℕ) (res : ClntRes)
    → register kv "k" ≡ list_at enc es
    → Fits es me (appender_at (writing es' ver count) i res)
    → length es + 2 < 2 ^ 64
    → (kv' : KvServer) × (c' : Appender) × (write_turn enc es' ver count fate kv
          (appender_at (writing es' ver count) i res)
        ≡ some (kv', c'))
      × Stepped enc me es (appender_at (writing es' ver count) i res) kv' c'
unfolding write_turn
write_turn_lem enc me es es' ver count request_lost kv i res there f small = (
  kv,
  appender_at (writing es' ver (count + 1)) i res,
  ground (arith, (put_loop-one kv (args_of enc es' ver) count).0),
  same_list enc me es _ kv _ there f (ground (arith, f.reached)) (omega arith) f.tried f.up_to_date,
)
write_turn_lem enc me es es' ver count reply_lost kv i res there f small = (
  put_state kv (args_of enc es' ver),
  appender_at (writing es' ver (count + 1)) i res,
  ground (arith, (put_loop-one kv (args_of enc es' ver) count).1),
  elim (put_effect enc es es' ver (record { id = me; n = i }) kv there f.up_to_date small) [
    | inl (hit, grown, reply) ↦ record {
      after = es ++ (record { id = me; n = i } ∷ []);
      holds = grown;
      grows = inr refl;
      fits =
          appended es me _ (appender_at (writing es' ver (count + 1)) i res) f
            (ground (arith, f.reached)) (ground (arith, length_snoc es (record { id = me; n = i })))
            (omega arith) f.tried
            (UpToDate-append es (record { id = me; n = i }) (record { id = me; n = i })
              (writing es' ver (count + 1)) f.up_to_date);
    }
    | inr (miss, same, reply) ↦
        same_list enc me es _ _ _ same f (ground (arith, f.reached)) (omega arith) f.tried
          f.up_to_date
  ],
)
write_turn_lem enc me es es' ver count delivered kv i res there f small = (
  put_state kv (args_of enc es' ver),
  after_put (error_of (register kv "k") ver count) (appender_at (writing es' ver count) i res),
  ground (arith, (put_loop-one kv (args_of enc es' ver) count).2),
  elim (put_effect enc es es' ver (record { id = me; n = i }) kv there f.up_to_date small) [
    | inl (hit, grown, reply) ↦ rw reply (record {
      after = es ++ (record { id = me; n = i } ∷ []);
      holds = grown;
      grows = inr refl;
      fits =
          appended es me _ (appender_at waiting (i + 1) (record res { nok = res.nok + 1 })) f
            (ground (arith, f.reached)) (omega arith) (omega arith) (omega (arith, f.tried)) tt;
    })
    | inr (miss, same, reply) ↦ rw reply (elim (Bool-cases (ltb 1 (count + 1))) [
      | inl again ↦ rw again (
          same_list enc me es _ _
            (appender_at waiting (i + 1) (record res { nmaybe = res.nmaybe + 1 })) same f
            (ground (arith, f.reached)) (omega arith) (omega (arith, f.tried)) tt)
      | inr first ↦ rw first (
          same_list enc me es _ _ (appender_at reading i res) same f (ground (arith, f.reached))
            (omega arith) f.tried tt)
    ])
  ],
)

-- What a call of GetJson that comes through returns.
pub get_json-list :
    (enc : List EntryN → String) (dec : String → Option (List EntryN)) (kv : KvServer)
    (es : List EntryN)
    → ((es : List EntryN) → dec (enc es) ≡ some es)
    → register kv "k" ≡ list_at enc es
    → get_json dec "k" (one_turn delivered) kv ≡ returned kv (es, length es + 1)
unfolding get_json
get_json-list enc dec kv es back there = ground (arith, (clerk_get-one kv "k").2, there, back es)

read_turn_lem :
    (enc : List EntryN → String) (dec : String → Option (List EntryN)) (me : ℕ) (es : List EntryN)
    (fate : Fate) (kv : KvServer) (i : ℕ) (res : ClntRes)
    → ((es : List EntryN) → dec (enc es) ≡ some es)
    → register kv "k" ≡ list_at enc es
    → Fits es me (appender_at reading i res)
    → (kv' : KvServer) × (c' : Appender) × (read_turn dec me fate kv (appender_at reading i res)
        ≡ some (kv', c'))
      × Stepped enc me es (appender_at reading i res) kv' c'
unfolding read_turn
read_turn_lem enc dec me es request_lost kv i res back there f = (
  kv,
  appender_at reading i res,
  ground (arith, (get_json-lost dec "k" kv).0),
  same_list enc me es _ kv _ there f f.reached (omega arith) f.tried tt,
)
read_turn_lem enc dec me es reply_lost kv i res back there f = (
  kv,
  appender_at reading i res,
  ground (arith, (get_json-lost dec "k" kv).1),
  same_list enc me es _ kv _ there f f.reached (omega arith) f.tried tt,
)
read_turn_lem enc dec me es delivered kv i res back there f = (
  kv,
  appender_at (writing (es ++ (record { id = me; n = i } ∷ [])) (length es + 1) 0) i res,
  ground (arith, get_json-list enc dec kv es back there),
  same_list enc me es _ kv _ there f f.reached (omega arith) f.tried (omega arith, λ e. refl),
)

append_turn_at :
    (enc : List EntryN → String) (dec : String → Option (List EntryN)) (me : ℕ) (es : List EntryN)
    (fate : Fate) (kv : KvServer) (stage : Stage) (i : ℕ) (res : ClntRes)
    → ((es : List EntryN) → dec (enc es) ≡ some es)
    → register kv "k" ≡ list_at enc es
    → Fits es me (appender_at stage i res)
    → length es + 2 < 2 ^ 64
    → (kv' : KvServer) × (c' : Appender) × (append_turn enc dec me fate kv (appender_at stage i res)
        ≡ some (kv', c'))
      × Stepped enc me es (appender_at stage i res) kv' c'
unfolding append_turn
append_turn_at enc dec me es fate kv waiting i res back there f small = (
  kv,
  appender_at reading i res,
  refl,
  same_list enc me es _ kv _ there f f.reached (omega arith) f.tried tt,
)
append_turn_at enc dec me es fate kv reading i res back there f small =
    read_turn_lem enc dec me es fate kv i res back there f
append_turn_at enc dec me es fate kv (writing es' ver count) i res back there f small =
    write_turn_lem enc me es es' ver count fate kv i res there f small

-- One turn of a client ends no test, and appends at most its own entry.
pub append_turn_lem :
    (enc : List EntryN → String) (dec : String → Option (List EntryN)) (me : ℕ) (es : List EntryN)
    (fate : Fate) (kv : KvServer) (c : Appender)
    → ((es : List EntryN) → dec (enc es) ≡ some es)
    → register kv "k" ≡ list_at enc es
    → Fits es me c
    → length es + 2 < 2 ^ 64
    → (kv' : KvServer) × (c' : Appender) × (append_turn enc dec me fate kv c ≡ some (kv', c'))
      × Stepped enc me es c kv' c'
append_turn_lem enc dec me es fate kv c back there f small =
    append_turn_at enc dec me es fate kv c.stage c.i c.res back there f small
