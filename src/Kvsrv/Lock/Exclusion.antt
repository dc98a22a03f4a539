-- ===== src/Kvsrv/Lock/Exclusion.antt =====
-- Mutual exclusion of the clients of the lock in src/kvsrv1/lock/lock.go.
use mit_6_5824_lab.Prelude.{
  ◌==◌, Bool-cases, Option-cases, length, get_elem?, set, length-set, replicate, length-replicate,
  get_elem?_of_lt, get_elem?-set_inv, >>=-some, lookup, ℕ, zero, suc, ◌+◌, ◌^◌, ◌≤◌, ◌<◌, String,
  ◌≡◌, refl, sym, ap, ◌∙◌, ◌≢◌, inl, inr, Bool, true, false, ◌&&◌, Option, none, some, List, [],
  ◌∷◌, arith,
}
use mit_6_5824_lab.Kvsrv.Lock.Stages.{Held, Fits, draw, Held-unique, Fits-frame}
use mit_6_5824_lab.Kvsrv.Clerk.{Fate}
use mit_6_5824_lab.Kvsrv.Clerk.Single.{InRange}
use mit_6_5824_lab.Kvsrv.Lock.Clients.{
  Stage, outside, reading, writing, rereading, holding, releasing, checking, reputting, Room,
  fresh_room, run_room,
}
use mit_6_5824_lab.Kvsrv.Lock.Puts.{lock_turn_lem}
use mit_6_5824_lab.Kvsrv.Registers.{register, version_of}
use mathlib.Core.Path.{subst}
use mit_6_5824_lab.Kvsrv.Server.{Entry, KvServer}
use mit_6_5824_lab.Kvsrv.Lock.Steps.{Moved}

-- What holds before step `k`: the stages fit the register, and the draws of the clients are
-- earlier than `k` and differ.
pub record Inv (rand : ℕ → String) (key : String) (k : ℕ) (room : Room) : Type 0 where
  pub fits :
      (i : ℕ) (s : Stage) → get_elem? room.stages i ≡ some s → Fits rand (register room.kv key) s
  pub earlier :
      (i : ℕ) (s : Stage) (d : ℕ) → get_elem? room.stages i ≡ some s → draw s ≡ some d → d < k
  pub apart :
      (i j : ℕ) (s t : Stage) (d : ℕ)
      → get_elem? room.stages i ≡ some s
      → get_elem? room.stages j ≡ some t
      → draw s ≡ some d
      → draw t ≡ some d
      → i ≡ j
  pub small : version_of (register room.kv key) ≤ k

module _ (rand : ℕ → String) (differ : (i j : ℕ) → rand i ≡ rand j → i ≡ j)
    (solid : (i : ℕ) → rand i ≢ "") (key : String) where
  -- The draw of the client that has moved is that of no other.
  no_clash :
      (k me : ℕ) (room : Room) (s s' : Stage) (r r' : Option Entry) (j d : ℕ) (t : Stage)
      → Inv rand key k room
      → get_elem? room.stages me ≡ some s
      → Moved rand k r s r' s'
      → me ≢ j
      → get_elem? room.stages j ≡ some t
      → draw s' ≡ some d
      → draw t ≡ some d
      → ⊥
  no_clash k me room s s' r r' j d t inv at m other there ds dt = elim (m.drawn d ds) [
    | inl old ↦ other (inv.apart me j s t d at there old dt)
    | inr new ↦ absurd (omega (arith, inv.earlier j t d there dt))
  ]

  step_Inv :
      (k me : ℕ) (room : Room) (kv' : KvServer) (s s' : Stage)
      → Inv rand key k room
      → get_elem? room.stages me ≡ some s
      → Moved rand k (register room.kv key) s (register kv' key) s'
      → Inv rand key (suc k) (record { kv = kv'; stages = set room.stages me s' })
  step_Inv k me room kv' s s' inv at m = record {
    fits = λ i t here. elim (get_elem?-set_inv room.stages me i s' here) [
      | inl (same, is) ↦ rw is m.fits
      | inr (other, there) ↦
          Fits-frame rand differ solid t m.change
            (λ d dt ds. other (inv.apart me i s t d at there ds dt)) (inv.fits i t there)
    ];
    earlier = λ i t d here dt. elim (get_elem?-set_inv room.stages me i s' here) [
      | inl (same, is) ↦ elim (m.drawn d (ap draw (sym is) ∙ dt)) [
        | inl old ↦ omega (arith, inv.earlier me s d at old)
        | inr new ↦ omega arith
      ]
      | inr (other, there) ↦ omega (arith, inv.earlier i t d there dt)
    ];
    apart = λ i j t u d here here' dt du. elim (get_elem?-set_inv room.stages me i s' here) [
      | inl (same, is) ↦ elim (get_elem?-set_inv room.stages me j s' here') [
        | inl (same', is') ↦ sym same ∙ same'
        | inr (other, there) ↦
            absurd
              (no_clash k me room s s' _ _ j d u inv at m other there (ap draw (sym is) ∙ dt) du)
      ]
      | inr (other, there) ↦ elim (get_elem?-set_inv room.stages me j s' here') [
        | inl (same', is') ↦
            absurd
              (no_clash k me room s s' _ _ i d t inv at m other there (ap draw (sym is') ∙ du) dt)
        | inr (other', there') ↦ inv.apart i j t u d there there' dt du
      ]
    ];
    small = omega (arith, inv.small, m.by_one);
  }

  run_Inv :
      (n k : ℕ) (schedule : List (ℕ × Fate)) (room : Room)
      → Inv rand key k room
      → length room.stages ≡ n
      → InRange n schedule
      → k + length schedule < 2 ^ 64
      → (room' : Room) × (run_room rand key k schedule room ≡ some room')
        × Inv rand key (k + length schedule) room'
  unfolding run_room
  run_Inv n k [] room inv len range small =
      (room, refl, subst (λ x. Inv rand key x room) (omega arith) inv)
  run_Inv n k ((me, fate) ∷ schedule) room inv len range small =
      let (s, at) = get_elem?_of_lt room.stages me (omega (arith, range.0)) in
      let (kv', s', turn, m) =
        lock_turn_lem rand key k room.kv (omega (arith, inv.small)) fate s (inv.fits me s at) in
      let (last, run, inv') =
        run_Inv n (suc k) schedule (record { kv = kv'; stages = set room.stages me s' })
          (step_Inv k me room kv' s s' inv at m) (length-set room.stages me s' ∙ len) range.1
          (omega arith) in
      (
        last,
        >>=-some _ _ at (>>=-some _ _ turn run),
        subst (λ x. Inv rand key x last) (omega arith) inv',
      )

  outside_only : (n i : ℕ) (s : Stage) → get_elem? (replicate n outside) i ≡ some s → s ≡ outside
  outside_only zero i s at = cc
  outside_only (suc n) zero s at = cc
  outside_only (suc n) (suc i) s at = outside_only n i s at

  fresh-Inv : (n : ℕ) → Inv rand key 0 (fresh_room n)
  unfolding fresh_room register lookup
  fresh-Inv n = record {
    fits = λ i s at. rw (outside_only n i s at) tt;
    earlier = λ i s d at ds. let e = outside_only n i s at in absurd cc;
    apart = λ i j s t d at at' ds dt. let e = outside_only n i s at in absurd cc;
    small = omega arith;
  }

-- Whether a client is between the return of Acquire and the moment when the server has performed
-- the put of Release, which is as long as the key has the version that Release has read.
abbrev pub is_inside : Option Entry → Stage → Bool
is_inside r (holding d) = true
is_inside r (releasing d) = true
is_inside r (checking d curr) = curr == version_of r
is_inside r (reputting d curr version count) = curr == version_of r
is_inside r _ = false

abbrev pub inside : String → ℕ → Room → Bool
inside key i room = elim (get_elem? room.stages i) [
  | none ↦ false
  | some s ↦ is_inside (register room.kv key) s
]

inside_holds :
    (rand : ℕ → String) (r : Option Entry) (s : Stage)
    → is_inside r s ≡ true
    → Fits rand r s
    → (d : ℕ) × (draw s ≡ some d) × Held rand r d
inside_holds rand r (holding d) h fits = (d, refl, fits)
inside_holds rand r (releasing d) h fits = (d, refl, fits)
inside_holds rand r outside h fits = cc
inside_holds rand r reading h fits = cc
inside_holds rand r (writing d version reread count) h fits = cc
inside_holds rand r (rereading d) h fits = cc
inside_holds rand r (checking d curr) h fits = elim fits [
  | inl (held, e) ↦ (d, refl, held)
  | inr past ↦ absurd (ground arith)
]
inside_holds rand r (reputting d curr version count) h fits = elim fits.1 [
  | inl (held, e) ↦ (d, refl, held)
  | inr past ↦ absurd (ground arith)
]

inside_stage :
    (key : String) (i : ℕ) (room : Room)
    → inside key i room ≡ true
    → (s : Stage) × (get_elem? room.stages i ≡ some s) × (is_inside (register room.kv key) s ≡ true)
inside_stage key i room h = elim (Option-cases (get_elem? room.stages i)) [
  | inl e ↦ absurd (ground (arith, e))
  | inr (s, e) ↦ (s, e, ground (arith, e))
]

exclusive :
    (rand : ℕ → String) (key : String) (k i j : ℕ) (room : Room)
    → ((x y : ℕ) → rand x ≡ rand y → x ≡ y)
    → ((x : ℕ) → rand x ≢ "")
    → Inv rand key k room
    → i ≢ j
    → inside key i room && inside key j room ≡ false
exclusive rand key k i j room differ solid inv two = elim (Bool-cases (inside key i room)) [
  | inr out ↦ rw out refl
  | inl one ↦ elim (Bool-cases (inside key j room)) [
    | inr out ↦ rw (one, out) refl
    | inl other ↦
        let (s, at, within) = inside_stage key i room one in
        let (t, at', within') = inside_stage key j room other in
        let (d, ds, held) = inside_holds rand (register room.kv key) s within (inv.fits i s at) in
        let (e, dt, held') =
          inside_holds rand (register room.kv key) t within' (inv.fits j t at') in
        let same = Held-unique rand differ solid held held' in
        absurd (two (inv.apart i j s t d at at' ds (dt ∙ ap some (sym same))))
  ]
]

-- Any number of clients that acquire and release the lock again and again over a fresh server, in any order of
-- their calls, fewer than 2^64 of them, whatever the network loses, and with values drawn at random that
-- differ and are not empty: no call ends the process, and of two clients never both are between the return of
-- Acquire and the moment when the server has performed the put of Release.
pub run_room_lem :
    (rand : ℕ → String) (key : String) (n : ℕ) (schedule : List (ℕ × Fate)) (i j : ℕ)
    → ((x y : ℕ) → rand x ≡ rand y → x ≡ y)
    → ((x : ℕ) → rand x ≢ "")
    → InRange n schedule
    → length schedule < 2 ^ 64
    → i ≢ j
    → (room : Room) × (run_room rand key 0 schedule (fresh_room n) ≡ some room)
      × (inside key i room && inside key j room ≡ false)
unfolding fresh_room
run_room_lem rand key n schedule i j differ solid range small two =
    let (room, run, inv) =
      run_Inv rand differ solid key n 0 schedule (fresh_room n) (fresh-Inv rand differ solid key n)
        (length-replicate n outside) range (omega arith) in
    (room, run, exclusive rand key _ i j room differ solid inv two)
