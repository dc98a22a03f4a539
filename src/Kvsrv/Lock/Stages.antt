-- ===== src/Kvsrv/Lock/Stages.antt =====
-- What each stage of a client of the lock in src/kvsrv1/lock/lock.go says of the register of its key, and how
-- a step changes that register.
use mathlib.Core.Path.{subst}
use mit_6_5824_lab.Prelude.{
  ℕ, ◌+◌, ◌≤◌, ◌<◌, String, ◌≡◌, refl, sym, ap, ◌∙◌, ◌≢◌, ◌⊎◌, inl, inr, Option, none, some, arith,
}
use mit_6_5824_lab.Kvsrv.Server.{Entry}
use mit_6_5824_lab.Kvsrv.Registers.{version_of}
use mit_6_5824_lab.Kvsrv.Lock.Clients.{
  Stage, outside, reading, writing, rereading, holding, releasing, checking, reputting,
}

-- The register holds the value drawn in step `d`, or nothing that keeps others out.
abbrev pub Held : (ℕ → String) → Option Entry → ℕ → Type 0
Held rand r d = (version : ℕ) × (r ≡ some (record { value = rand d; version = version }))

abbrev pub Free : Option Entry → Type 0
Free none = Unit
Free (some entry) = entry.value ≡ ""

abbrev pub Fits : (ℕ → String) → Option Entry → Stage → Type 0
Fits rand r (writing d version reread count) =
    (version ≤ version_of r) × (version ≡ version_of r → Free r)
Fits rand r (holding d) = Held rand r d
Fits rand r (releasing d) = Held rand r d
Fits rand r (checking d curr) = (Held rand r d × (curr ≡ version_of r)) ⊎ (curr < version_of r)
Fits rand r (reputting d curr version count) =
    (version ≤ curr) × ((Held rand r d × (curr ≡ version_of r)) ⊎ (curr < version_of r))
Fits rand r _ = Unit

-- The step in which the value was drawn that a client uses.
abbrev pub draw : Stage → Option ℕ
draw (writing d version reread count) = some d
draw (rereading d) = some d
draw (holding d) = some d
draw (releasing d) = some d
draw (checking d curr) = some d
draw (reputting d curr version count) = some d
draw _ = none

-- A step of a client with draw `o` leaves the register, takes the free lock, or gives back the lock
-- that it holds.
pub data Change (rand : ℕ → String) (o : Option ℕ) (r r' : Option Entry) : Type 0 where
  keeps : r' ≡ r → Change rand o r r'
  takes :
      (d : ℕ)
      → o ≡ some d
      → Free r
      → r' ≡ some (record { value = rand d; version = version_of r + 1 })
      → Change rand o r r'
  gives :
      (d : ℕ)
      → o ≡ some d
      → Held rand r d
      → r' ≡ some (record { value = ""; version = version_of r + 1 })
      → Change rand o r r'

module _ (rand : ℕ → String) (differ : (i j : ℕ) → rand i ≡ rand j → i ≡ j)
    (solid : (i : ℕ) → rand i ≢ "") where
  Held-Free : {r : Option Entry} {d : ℕ} → Held rand r d → Free r → ⊥
  Held-Free {r} {d} (version, e) free = solid d (subst Free e free)

  pub Held-unique : {r : Option Entry} {d e : ℕ} → Held rand r d → Held rand r e → d ≡ e
  Held-unique {r} {d} {e} (version, p) (version', q) = differ d e cc

  -- A change by a client with another draw does not disturb a holder.
  Held-frame :
      {o : Option ℕ} {r r' : Option Entry} {d : ℕ}
      → Change rand o r r'
      → o ≢ some d
      → Held rand r d
      → (Held rand r' d) × (version_of r' ≡ version_of r)
  Held-frame (keeps e) apart held = rw e (held, refl)
  Held-frame (takes d' is free e) apart held = absurd (Held-Free held free)
  Held-frame (gives d' is held' e) apart held =
      absurd (apart (is ∙ ap some (Held-unique held' held)))

  version_rises :
      {o : Option ℕ} {r r' : Option Entry} → Change rand o r r' → version_of r ≤ version_of r'
  version_rises (keeps e) = rw e (omega arith)
  version_rises (takes d is free e) = rw e (omega arith)
  version_rises (gives d is held e) = rw e (omega arith)

  Free-frame :
      {o : Option ℕ} {r r' : Option Entry} (version : ℕ)
      → Change rand o r r'
      → version ≤ version_of r
      → (version ≡ version_of r → Free r)
      → version ≡ version_of r'
      → Free r'
  Free-frame version (keeps e) le free same = rw e (free (same ∙ ap version_of e))
  Free-frame version (takes d is was e) le free same = absurd (omega (arith, ap version_of e))
  Free-frame version (gives d is held e) le free same = rw e refl

  check_frame :
      {o : Option ℕ} {r r' : Option Entry} {d : ℕ} (curr : ℕ)
      → Change rand o r r'
      → o ≢ some d
      → (Held rand r d × (curr ≡ version_of r)) ⊎ (curr < version_of r)
      → (Held rand r' d × (curr ≡ version_of r')) ⊎ (curr < version_of r')
  check_frame curr change apart (inl (held, same)) =
      let (held', kept) = Held-frame change apart held in inl (held', same ∙ sym kept)
  check_frame curr change apart (inr past) = inr (omega (arith, past, version_rises change))

  -- What a stage says stays true when another client makes a step.
  pub Fits-frame :
      {o : Option ℕ} {r r' : Option Entry} (stage : Stage)
      → Change rand o r r'
      → ((d : ℕ) → draw stage ≡ some d → o ≢ some d)
      → Fits rand r stage
      → Fits rand r' stage
  Fits-frame outside change apart fits = tt
  Fits-frame reading change apart fits = tt
  Fits-frame (rereading d) change apart fits = tt
  Fits-frame (writing d version reread count) change apart (le, free) =
      (omega (arith, le, version_rises change), Free-frame version change le free)
  Fits-frame (holding d) change apart fits = (Held-frame change (apart d refl) fits).0
  Fits-frame (releasing d) change apart fits = (Held-frame change (apart d refl) fits).0
  Fits-frame (checking d curr) change apart fits = check_frame curr change (apart d refl) fits
  Fits-frame (reputting d curr version count) change apart (le, fits) =
      (le, check_frame curr change (apart d refl) fits)
