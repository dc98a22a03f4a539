-- ===== src/Kvtest/AtLeastOnce.antt =====
-- src/kvtest1/kvtest.go: PutAtLeastOnce, Get and CheckGet of a test, over the clerk and the server of src/kvsrv1.
-- `fatal` is Fatalf, which ends the test. Each round of PutAtLeastOnce has the turns of its put.
use mit_6_5824_lab.Prelude.{
  ◌==◌, if◌then◌else◌, length, ℕ, ◌+◌, ◌^◌, ◌≤◌, ◌<◌, String, ◌≡◌, refl, sym, ap, ◌∙◌, ◌⊎◌, inl,
  inr, Bool, true, false, ◌&&◌, ◌||◌, some, List, [], ◌∷◌, arith, str_eq,
}
use mit_6_5824_lab.Kvsrv.Clerk.Single.{one_turn, register_self, put_loop-one, clerk_get-one}
use mit_6_5824_lab.Kvsrv.Clerk.{
  request_lost, reply_lost, delivered, Turn, Outcome, retrying, returned, fatal, put_loop,
  clerk_put, clerk_get,
}
use text.Mathlib.TextPositions.{eq_refl}
use mit_6_5824_lab.Kvsrv.Registers.{
  register, cas_reply, version_of, put_state, put-eq-some, serve_puts,
}
use mit_6_5824_lab.Kvsrv.Server.{Entry, KvServer}
use mit_6_5824_lab.Kvsrv.Rpc.{
  Err, ok, err_maybe, is_ok, is_version, is_maybe, u64, GetReply, PutArgs, fresh_put,
}
use mit_6_5824_lab.Kvsrv.Lock.Steps.{cas_effect}

-- PutAtLeastOnce
unfoldable pub put_at_least_once : KvServer → String → String → ℕ → List (List Turn) → Outcome ℕ
put_at_least_once kv key value ver [] = retrying kv
put_at_least_once kv key value ver (turns ∷ rounds) =
    elim (clerk_put kv (record { key = key; value = value; version = ver }) turns) [
      | retrying kv' ↦ retrying kv'
      | fatal ↦ fatal
      | returned kv' err ↦
          let next = put_at_least_once kv' key value (u64 (ver + 1)) rounds in
          let again = put_at_least_once kv' key value ver rounds in
          if is_ok err
          then returned kv' (u64 (ver + 1))
          else if is_maybe err || is_version err
          then next
          else if ver == 0
          then again
          else fatal
    ]

-- CheckGet, after the read: whether the test goes on.
abbrev pub as_expected : String → ℕ → GetReply → Bool
as_expected value version reply =
    is_ok reply.err && (str_eq reply.value value && (reply.version == version))

unfoldable pub check_get : KvServer → String → String → ℕ → List Turn → Outcome Bool
check_get kv key value version turns = elim (clerk_get kv (record { key = key }) turns) [
  | retrying kv' ↦ retrying kv'
  | fatal ↦ fatal
  | returned kv' reply ↦ if as_expected value version reply then returned kv' true else fatal
]

-- The turns of a call without others: each `true` a lost request, each `false` a lost reply, and a call that comes
-- through.
abbrev pub round : List Bool → List Turn
round [] = one_turn delivered
round (true ∷ losses) = record { others = []; fate = request_lost } ∷ round losses
round (false ∷ losses) = record { others = []; fate = reply_lost } ∷ round losses

abbrev pub SameRegister : KvServer → String → String → ℕ → Type 0
SameRegister kv key value version =
    register kv key ≡ some (record { value = value; version = version })

put_loop-reply_lost :
    (kv : KvServer) (args : PutArgs) (count : ℕ) (losses : List Bool)
    → put_loop kv args count (round (false ∷ losses))
      ≡ put_loop (put_state kv args) args (count + 1) (round losses)
unfolding put_loop serve_puts
put_loop-reply_lost kv args count losses =
    let served = put-eq-some kv args fresh_put in rw (served, put_loop) refl

-- The put has been performed before.
late_round :
    (kv : KvServer) (args : PutArgs) (e : Entry) (count : ℕ) (losses : List Bool)
    → register kv args.key ≡ some e
    → args.version < e.version
    → 1 ≤ count
    → (kv' : KvServer) × (put_loop kv args count (round losses) ≡ returned kv' err_maybe)
      × (register kv' args.key ≡ some e)
unfolding put_loop serve_puts
late_round kv args e count [] there newer again =
    let self : register (put_state kv args) args.key ≡ some e =
      register_self kv args ∙ (rw there (ground arith)) in
    (put_state kv args, (put_loop-one kv args count).2 ∙ (rw there (ground arith)), self)
late_round kv args e count (true ∷ losses) there newer again =
    late_round kv args e (count + 1) losses there newer (omega arith)
late_round kv args e count (false ∷ losses) there newer again =
    let self : register (put_state kv args) args.key ≡ some e =
      register_self kv args ∙ (rw there (ground arith)) in
    let (kv', run, same) =
      late_round (put_state kv args) args e (count + 1) losses self newer (omega arith) in
    (kv', put_loop-reply_lost kv args count losses ∙ run, same)

abbrev stored : PutArgs → Entry
stored args = record { value = args.value; version = args.version + 1 }

put_stores :
    (kv : KvServer) (args : PutArgs)
    → version_of (register kv args.key) ≡ args.version
    → args.version + 1 < 2 ^ 64
    → (register (put_state kv args) args.key ≡ some (stored args))
      × (cas_reply (register kv args.key) args.version ≡ ok)
put_stores kv args at small =
    elim (cas_effect (register kv args.key) args.value args.version (omega arith)) [
      | inl (hit, reply, wrote) ↦ (
        register_self kv args
            ∙ (wrote ∙ ap (λ v. some (record { value = args.value; version = v })) (omega arith)),
        reply,
      )
      | inr (miss, reply, same) ↦ absurd (miss (sym at))
    ]

-- A put at the version of the key is performed, and returns OK or ErrMaybe.
fresh_round :
    (kv : KvServer) (args : PutArgs) (count : ℕ) (losses : List Bool)
    → version_of (register kv args.key) ≡ args.version
    → args.version + 1 < 2 ^ 64
    → (kv' : KvServer) × (err : Err) × (put_loop kv args count (round losses) ≡ returned kv' err)
      × ((err ≡ ok) ⊎ (err ≡ err_maybe))
      × (register kv' args.key ≡ some (stored args))
unfolding put_loop serve_puts
fresh_round kv args count [] at small =
    let (self, reply) = put_stores kv args at small in
    (put_state kv args, ok, (put_loop-one kv args count).2 ∙ (rw reply refl), inl refl, self)
fresh_round kv args count (true ∷ losses) at small = fresh_round kv args (count + 1) losses at small
fresh_round kv args count (false ∷ losses) at small =
    let (self, reply) = put_stores kv args at small in
    let (kv', run, same) =
      late_round (put_state kv args) args (stored args) (count + 1) losses self (omega arith)
        (omega arith) in
    (kv', err_maybe, put_loop-reply_lost kv args count losses ∙ run, inr refl, same)

check_get_lem :
    (kv : KvServer) (key value : String) (version : ℕ)
    → SameRegister kv key value version
    → check_get kv key value version (one_turn delivered) ≡ returned kv true
unfolding check_get
check_get_lem kv key value version there =
    ground (arith, (clerk_get-one kv key).2, there, eq_refl value)

abbrev pub rounds_of : List (List Bool) → List (List Turn)
rounds_of [] = round [] ∷ []
rounds_of (losses ∷ more) = round losses ∷ rounds_of more

-- A client that alone puts to a key and begins with the version of the key, whatever the network loses in any
-- number of rounds, as long as each call comes through in the end and that of the last round at once: the
-- test goes on, the key then holds the value at the version that is returned, which is later, and CheckGet of
-- these two passes.
pub put_at_least_once_lem :
    (kv : KvServer) (key value : String) (ver : ℕ) (lost : List (List Bool))
    → version_of (register kv key) ≡ ver
    → ver + length lost + 1 < 2 ^ 64
    → (kv' : KvServer) × (ver' : ℕ) × (put_at_least_once kv key value ver (rounds_of lost)
        ≡ returned kv' ver')
      × SameRegister kv' key value ver'
      × (ver < ver')
      × (ver' ≤ ver + length lost + 1)
      × (check_get kv' key value ver' (one_turn delivered) ≡ returned kv' true)
unfolding put_at_least_once clerk_put
put_at_least_once_lem kv key value ver [] at small =
    let args : PutArgs = record { key = key; value = value; version = ver } in
    let (self, reply) = put_stores kv args at (omega arith) in
    (
      put_state kv args,
      ver + 1,
      ground (arith, (put_loop-one kv args 0).2, reply),
      self,
      omega arith,
      omega arith,
      check_get_lem _ key value (ver + 1) self,
    )
put_at_least_once_lem kv key value ver (losses ∷ lost) at small =
    let args : PutArgs = record { key = key; value = value; version = ver } in
    let (kv1, err, run, which, self) = fresh_round kv args 0 losses at (omega arith) in
    elim which [
      | inl fine ↦ (
        kv1,
        ver + 1,
        ground (arith, run, fine),
        self,
        omega arith,
        omega arith,
        check_get_lem kv1 key value (ver + 1) self,
      )
      | inr maybe ↦
          let (last, ver', rest, holds, later, bound, got) =
            put_at_least_once_lem kv1 key value (ver + 1) lost (rw self refl) (omega arith) in
          (last, ver', ground (arith, run, maybe, rest), holds, omega arith, omega arith, got)
    ]
