-- ===== src/Kvsrv/Lock/Puts.antt =====
-- The puts of a client of the lock in src/kvsrv1/lock/lock.go, and every step of it.
use mit_6_5824_lab.Prelude.{
  Bool-cases, ℕ, ◌+◌, ◌^◌, ◌<◌, String, ◌≡◌, refl, sym, ◌∙◌, ◌⊎◌, inl, inr, Bool, ◌&&◌, Option,
  some, arith,
}
use mit_6_5824_lab.Kvsrv.Lock.Clients.{
  Stage, outside, reading, writing, rereading, holding, releasing, checking, reputting, put_turn,
  after_write, lock_turn,
}
use mit_6_5824_lab.Kvsrv.Lock.Stages.{Held, Fits, draw, keeps, takes, gives}
use mit_6_5824_lab.Kvsrv.Lock.Steps.{
  Moved, error_of, put_cases, cas_effect, idle_step, Good, reading_step, rereading_step,
  releasing_step, checking_step,
}
use mit_6_5824_lab.Kvsrv.Registers.{register, cas, version_of, put_state}
use mit_6_5824_lab.Kvsrv.Clerk.{Fate}
use mit_6_5824_lab.Kvsrv.Rpc.{Err, is_maybe, PutArgs}
use mit_6_5824_lab.Kvsrv.Server.{Entry, KvServer}
use mit_6_5824_lab.Kvsrv.Clerk.Single.{register_self}

module _ (rand : ℕ → String) (k : ℕ) (r : Option Entry) (small : version_of r + 1 < 2 ^ 64) where
  -- A put that takes the lock, or gives it back, and what the stage after it says.
  taken :
      (d version count : ℕ) (reread : Bool) (s : Stage)
      → Fits rand r (writing d version reread count)
      → version ≡ version_of r
      → cas r (rand d) version ≡ some (record { value = rand d; version = version_of r + 1 })
      → Fits rand (some (record { value = rand d; version = version_of r + 1 })) s
      → draw s ≡ some d
      → Moved rand k r (writing d version reread count) (cas r (rand d) version) s
  taken d version count reread s (le, free) hit e fits same = record {
    change = takes d refl (free hit) e;
    fits = rw e fits;
    drawn = λ d' h. inl (sym same ∙ h);
    by_one = rw e (omega arith);
  }

  missed :
      (s s' : Stage) (value : String) (version : ℕ)
      → cas r value version ≡ r
      → Fits rand r s'
      → ((d : ℕ) → draw s' ≡ some d → draw s ≡ some d)
      → Moved rand k r s (cas r value version) s'
  missed s s' value version e fits same = record {
    change = keeps e;
    fits = rw e fits;
    drawn = λ d h. inl (same d h);
    by_one = rw e (omega arith);
  }

  write_waits :
      (d version count : ℕ) (reread : Bool)
      → Fits rand r (writing d version reread count)
      → Moved rand k r
          (writing d version reread count)
          (cas r (rand d) version)
          (writing d version reread (count + 1))
  write_waits d version count reread fits = elim (cas_effect r (rand d) version small) [
    | inl (hit, reply, e) ↦
        taken d version count reread _ fits hit e (omega arith, λ z. absurd (omega arith)) refl
    | inr (miss, reply, e) ↦ missed _ _ (rand d) version e fits (λ d' h. h)
  ]

  write_next :
      (d version count : ℕ) (reread : Bool)
      → Fits rand r (writing d version reread count)
      → Moved rand k r
          (writing d version reread count)
          (cas r (rand d) version)
          (after_write d reread (error_of r version count))
  unfolding after_write
  write_next d version count reread fits = elim (cas_effect r (rand d) version small) [
    | inl (hit, reply, e) ↦
        let next : after_write d reread (error_of r version count) ≡ holding d =
          ground (arith, reply) in
        rw next (taken d version count reread (holding d) fits hit e (version_of r + 1, refl) refl)
    | inr (miss, reply, e) ↦ elim (Bool-cases (reread && is_maybe (error_of r version count))) [
      | inl maybe ↦
          let next : after_write d reread (error_of r version count) ≡ rereading d =
            ground (arith, reply, maybe) in
          rw next (missed _ _ (rand d) version e tt (λ d' h. h))
      | inr again ↦
          let next : after_write d reread (error_of r version count) ≡ reading =
            ground (arith, reply, again) in
          rw next (missed _ _ (rand d) version e tt (λ d' h. absurd cc))
    ]
  ]

  -- The stages of CheckAndReput keep what they say; a put that is performed gives the lock back.
  given :
      (d curr version count : ℕ) (s : Stage)
      → Fits rand r (reputting d curr version count)
      → draw s ≡ some d
      → ((r' : Option Entry)
          → (Held rand r' d × (curr ≡ version_of r')) ⊎ (curr < version_of r')
          → Fits rand r' s)
      → Moved rand k r (reputting d curr version count) (cas r "" version) s
  given d curr version count s (le, fits) same keep = elim (cas_effect r "" version small) [
    | inl (hit, reply, e) ↦ elim fits [
      | inl (held, now) ↦ record {
        change = gives d refl held e;
        fits = keep (cas r "" version) (inr (rw e (omega arith)));
        drawn = λ d' h. inl (sym same ∙ h);
        by_one = rw e (omega arith);
      }
      | inr past ↦ absurd (omega arith)
    ]
    | inr (miss, reply, e) ↦ missed _ s "" version e (keep r fits) (λ d' h. sym same ∙ h)
  ]

module _ (rand : ℕ → String) (key : String) (k : ℕ) (kv : KvServer)
    (small : version_of (register kv key) + 1 < 2 ^ 64) where
  put_step :
      (s waits : Stage) (value : String) (version count : ℕ) (fate : Fate) (next : Err → Stage)
      → Moved rand k (register kv key) s (register kv key) waits
      → Moved rand k (register kv key) s (cas (register kv key) value version) waits
      → Moved rand k
          (register kv key)
          s
          (cas (register kv key) value version)
          (next (error_of (register kv key) version count))
      → Good rand key k kv s (
          put_turn
            (record { key = key; value = value; version = version })
            count
            fate
            kv
            waits
            next)
  put_step s waits value version count fate next m1 m2 m3 =
      let args : PutArgs = record { key = key; value = value; version = version } in
      elim (put_cases args count fate kv waits next) [
        | inl (inl e) ↦ (kv, waits, e, m1)
        | inl (inr e) ↦ (put_state kv args, waits, e, rw (register_self kv args) m2)
        | inr e ↦ (
          put_state kv args,
          next (error_of (register kv key) version count),
          e,
          rw (register_self kv args) m3,
        )
      ]

  -- A step of a client never ends the process, and it moves the register and the stage together.
  pub lock_turn_lem :
      (fate : Fate) (s : Stage)
      → Fits rand (register kv key) s
      → Good rand key k kv s (lock_turn rand key k fate kv s)
  unfolding lock_turn
  lock_turn_lem fate outside fits =
      (kv, reading, refl, idle_step rand k _ _ _ tt (λ d h. absurd cc))
  lock_turn_lem fate reading fits = reading_step rand key k kv fate
  lock_turn_lem fate (rereading d) fits = rereading_step rand key k kv d fate
  lock_turn_lem fate (holding d) fits =
      (kv, releasing d, refl, idle_step rand k _ _ _ fits (λ d' h. inl h))
  lock_turn_lem fate (releasing d) fits = releasing_step rand key k kv d fate fits
  lock_turn_lem fate (checking d curr) fits = checking_step rand key k kv d curr fate fits
  lock_turn_lem fate (writing d version reread count) fits =
      put_step (writing d version reread count) (writing d version reread (count + 1)) (rand d)
        version count fate (after_write d reread) (idle_step rand k _ _ _ fits (λ d' h. inl h))
        (write_waits rand k _ small d version count reread fits)
        (write_next rand k _ small d version count reread fits)
  lock_turn_lem fate (reputting d curr version count) fits =
      put_step (reputting d curr version count) (reputting d curr version (count + 1)) "" version
        count fate (λ err. checking d curr) (idle_step rand k _ _ _ fits (λ d' h. inl h))
        (given rand k _ small d curr version count (reputting d curr version (count + 1)) fits refl
          (λ r' h. (fits.0, h)))
        (given rand k _ small d curr version count (checking d curr) fits refl (λ r' h. h))
