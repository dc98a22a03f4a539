-- ===== src/Kvsrv/Lock/Steps.antt =====
-- A step of a client of the lock in src/kvsrv1/lock/lock.go: what it does to the register, and what the stage
-- after it says.
use mit_6_5824_lab.Prelude.{
  ltb, ◌==◌, if◌then◌else◌, Bool-cases, Option-cases, ℕ, zero, suc, ◌+◌, ◌^◌, ◌≤◌, ◌<◌, String, ◌≡◌,
  refl, ◌≢◌, ◌⊎◌, inl, inr, true, false, ◌&&◌, Option, none, some, arith, str_eq, eq_iff,
}
use mit_6_5824_lab.Kvsrv.Lock.Clients.{
  Stage, outside, reading, writing, rereading, holding, releasing, checking, reputting, read_turn,
  put_turn, after_read, after_reread, after_check,
}
use mit_6_5824_lab.Kvsrv.Lock.Stages.{Held, Fits, draw, Change, keeps}
use mit_6_5824_lab.Kvsrv.Rpc.{Err, ok, err_no_key, err_maybe, is_ok, is_version, GetReply, PutArgs}
use mit_6_5824_lab.Kvsrv.Server.{Entry, KvServer}
use mit_6_5824_lab.Kvsrv.Clerk.{Fate, request_lost, reply_lost, delivered}
use mit_6_5824_lab.Kvsrv.Clerk.Single.{put_loop-one, clerk_get-one}
use mit_6_5824_lab.Kvsrv.Registers.{register, cas, cas_reply, version_of, put_state}

pub record Moved (rand : ℕ → String) (k : ℕ) (r : Option Entry) (s : Stage) (r' : Option Entry)
    (s' : Stage) : Type 0 where
  pub change : Change rand (draw s) r r'
  pub fits : Fits rand r' s'
  pub drawn : (d : ℕ) → draw s' ≡ some d → (draw s ≡ some d) ⊎ (d ≡ k)
  pub by_one : version_of r' ≤ version_of r + 1

-- The reply of a Get, and the error of a Put.
abbrev reply_of : Option Entry → GetReply
reply_of none = record { value = ""; version = 0; err = err_no_key }
reply_of (some entry) = record { value = entry.value; version = entry.version; err = ok }

abbrev pub error_of : Option Entry → ℕ → ℕ → Err
error_of r version count =
    let err = cas_reply r version in if is_version err && ltb 1 (count + 1) then err_maybe else err

read_cases :
    (key : String) (fate : Fate) (kv : KvServer) (waits : Stage) (next : GetReply → Stage)
    → (read_turn key fate kv waits next ≡ some (kv, waits))
      ⊎ (read_turn key fate kv waits next ≡ some (kv, next (reply_of (register kv key))))
unfolding read_turn
read_cases key request_lost kv waits next = inl (ground (arith, (clerk_get-one kv key).0))
read_cases key reply_lost kv waits next = inl (ground (arith, (clerk_get-one kv key).1))
read_cases key delivered kv waits next = inr (elim (Option-cases (register kv key)) [
  | inl e ↦ ground (arith, (clerk_get-one kv key).2, e)
  | inr (entry, e) ↦ ground (arith, (clerk_get-one kv key).2, e)
])

pub put_cases :
    (args : PutArgs) (count : ℕ) (fate : Fate) (kv : KvServer) (waits : Stage) (next : Err → Stage)
    → ((put_turn args count fate kv waits next ≡ some (kv, waits))
        ⊎ (put_turn args count fate kv waits next ≡ some (put_state kv args, waits)))
      ⊎ (put_turn args count fate kv waits next
          ≡ some (put_state kv args, next (error_of (register kv args.key) args.version count)))
unfolding put_turn
put_cases args count request_lost kv waits next =
    inl (inl (ground (arith, (put_loop-one kv args count).0)))
put_cases args count reply_lost kv waits next =
    inl (inr (ground (arith, (put_loop-one kv args count).1)))
put_cases args count delivered kv waits next = inr (ground (arith, (put_loop-one kv args count).2))

pub cas_effect :
    (r : Option Entry) (value : String) (version : ℕ)
    → version_of r + 1 < 2 ^ 64
    → ((version ≡ version_of r)
        × (cas_reply r version ≡ ok)
        × (cas r value version ≡ some (record { value = value; version = version_of r + 1 })))
      ⊎ ((version ≢ version_of r)
          × (is_ok (cas_reply r version) ≡ false)
          × (cas r value version ≡ r))
cas_effect none value zero small = inl (refl, refl, refl)
cas_effect none value (suc version) small = inr (λ e. absurd (omega arith), refl, refl)
cas_effect (some entry) value version small = elim (Bool-cases (version == entry.version)) [
  | inl e ↦ inl (ground arith, ground arith, ground arith)
  | inr e ↦ inr (ground arith, ground arith, ground arith)
]

-- A step that leaves the register.
pub idle_step :
    (rand : ℕ → String) (k : ℕ) (r : Option Entry) (s s' : Stage)
    → Fits rand r s'
    → ((d : ℕ) → draw s' ≡ some d → (draw s ≡ some d) ⊎ (d ≡ k))
    → Moved rand k r s r s'
idle_step rand k r s s' fits drawn = record {
  change = keeps refl;
  fits = fits;
  drawn = drawn;
  by_one = omega arith;
}

-- The stages after the replies of a Get.
drawn_now : (k d : ℕ) → some k ≡ some d → (none ≡ some d) ⊎ (d ≡ k)
drawn_now k d e = inr cc

reading_next :
    (rand : ℕ → String) (k : ℕ) (r : Option Entry)
    → Moved rand k r reading r (after_read k (reply_of r))
unfolding after_read
reading_next rand k none =
    idle_step rand k none reading (writing k 0 false 0) (omega arith, λ e. tt) (drawn_now k)
reading_next rand k (some entry) = elim (Bool-cases (str_eq entry.value "")) [
  | inl e ↦
      let next : after_read k (reply_of (some entry)) ≡ writing k entry.version true 0 =
        ground (arith, e) in
      rw next
        (idle_step rand k _ _ _ (omega arith, λ same. (eq_iff entry.value "").0 e) (drawn_now k))
  | inr e ↦
      let next : after_read k (reply_of (some entry)) ≡ reading = ground (arith, e) in
      rw next (idle_step rand k _ _ _ tt (λ d h. inl h))
]

rereading_next :
    (rand : ℕ → String) (k d : ℕ) (r : Option Entry)
    → Moved rand k r (rereading d) r (after_reread rand d (reply_of r))
unfolding after_reread
rereading_next rand k d none = idle_step rand k none (rereading d) (rereading d) tt (λ d' h. inl h)
rereading_next rand k d (some entry) = elim (Bool-cases (str_eq entry.value (rand d))) [
  | inl e ↦
      let next : after_reread rand d (reply_of (some entry)) ≡ holding d = ground (arith, e) in
      let same : entry.value ≡ rand d = (eq_iff entry.value (rand d)).0 e in
      rw next (idle_step rand k _ _ _ (entry.version, ground arith) (λ d' h. inl h))
  | inr e ↦
      let next : after_reread rand d (reply_of (some entry)) ≡ reading = ground (arith, e) in
      rw next (idle_step rand k _ _ _ tt (λ d' h. absurd cc))
]

releasing_next :
    (rand : ℕ → String) (k d : ℕ) (r : Option Entry)
    → Held rand r d
    → Moved rand k r (releasing d) r (checking d (reply_of r).version)
releasing_next rand k d none (version, e) = absurd cc
releasing_next rand k d (some entry) held =
    idle_step rand k _ _ (checking d entry.version) (inl (held, refl)) (λ d' h. inl h)

checking_next :
    (rand : ℕ → String) (k d curr : ℕ) (r : Option Entry)
    → Fits rand r (checking d curr)
    → Moved rand k r (checking d curr) r (after_check d curr (reply_of r))
unfolding after_check
checking_next rand k d curr none fits = idle_step rand k _ _ (checking d curr) fits (λ d' h. inl h)
checking_next rand k d curr (some entry) fits = elim (Bool-cases (ltb curr entry.version)) [
  | inl e ↦
      let next : after_check d curr (reply_of (some entry)) ≡ outside = ground (arith, e) in
      rw next (idle_step rand k _ _ _ tt (λ d' h. absurd cc))
  | inr e ↦
      let next : after_check d curr (reply_of (some entry)) ≡ reputting d curr entry.version 0 =
        ground (arith, e) in
      rw next (idle_step rand k _ _ _ (ground arith, fits) (λ d' h. inl h))
]

-- What is to be shown of a step.
abbrev pub Good : (ℕ → String) → String → ℕ → KvServer → Stage → Option (KvServer × Stage) → Type 0
Good rand key k kv s turn =
    (kv' : KvServer) × (s' : Stage) × (turn ≡ some (kv', s'))
    × Moved rand k (register kv key) s (register kv' key) s'

module _ (rand : ℕ → String) (key : String) (k : ℕ) (kv : KvServer) where
  read_step :
      (s waits : Stage) (fate : Fate) (next : GetReply → Stage)
      → Moved rand k (register kv key) s (register kv key) waits
      → Moved rand k (register kv key) s (register kv key) (next (reply_of (register kv key)))
      → Good rand key k kv s (read_turn key fate kv waits next)
  read_step s waits fate next m n = elim (read_cases key fate kv waits next) [
    | inl e ↦ (kv, waits, e, m)
    | inr e ↦ (kv, next (reply_of (register kv key)), e, n)
  ]

  pub reading_step :
      (fate : Fate) → Good rand key k kv reading (read_turn key fate kv reading (after_read k))
  reading_step fate =
      read_step reading reading fate (after_read k)
        (idle_step rand k _ reading reading tt (λ d e. inl e))
        (reading_next rand k (register kv key))

  pub rereading_step :
      (d : ℕ) (fate : Fate)
      → Good rand key k kv (rereading d) (read_turn key fate kv (rereading d) (after_reread rand d))
  rereading_step d fate =
      read_step (rereading d) (rereading d) fate (after_reread rand d)
        (idle_step rand k _ _ _ tt (λ d e. inl e)) (rereading_next rand k d (register kv key))

  pub releasing_step :
      (d : ℕ) (fate : Fate)
      → Fits rand (register kv key) (releasing d)
      → Good rand key k kv
          (releasing d)
          (read_turn key fate kv (releasing d) (λ reply. checking d reply.version))
  releasing_step d fate fits =
      read_step (releasing d) (releasing d) fate (λ reply. checking d reply.version)
        (idle_step rand k _ _ _ fits (λ d e. inl e))
        (releasing_next rand k d (register kv key) fits)

  pub checking_step :
      (d curr : ℕ) (fate : Fate)
      → Fits rand (register kv key) (checking d curr)
      → Good rand key k kv
          (checking d curr)
          (read_turn key fate kv (checking d curr) (after_check d curr))
  checking_step d curr fate fits =
      read_step (checking d curr) (checking d curr) fate (after_check d curr)
        (idle_step rand k _ _ _ fits (λ d e. inl e))
        (checking_next rand k d curr (register kv key) fits)
