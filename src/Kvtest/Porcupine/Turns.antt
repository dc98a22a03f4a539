-- ===== src/Kvtest/Porcupine/Turns.antt =====
-- One step of a client of src/kvtest1/porcupine.go: what it logs, and how the server's registers follow the
-- model of src/models1/kv.go.
use mit_6_5824_lab.Prelude.{
  if◌then◌else◌, Bool-cases, ℕ, ◌+◌, ◌^◌, ◌≤◌, ◌<◌, String, ◌≡◌, refl, sym, ◌∙◌, ◌⊎◌, inl, inr,
  true, Option, none, some, List, [], ◌∷◌, ◌++◌, map, arith, str_eq, eq_iff,
}
use mit_6_5824_lab.Kvsrv.Clerk.Single.{register_self}
use mit_6_5824_lab.Kvsrv.Rpc.{Err, err_maybe, PutArgs}
use mit_6_5824_lab.Kvsrv.Server.{Entry, KvServer}
use mit_6_5824_lab.Kvsrv.Registers.{
  register, cas, cas_reply, version_of, put_state, put_state-Refines,
}
use mit_6_5824_lab.Models.Kv.{KvInput, KvOutput, KvState, state, invalid, step, partition}
use mit_6_5824_lab.Models.Legal.{state_of, put_input, put_output, put_state-step}
use mit_6_5824_lab.Models.History.{no_missing}
use mit_6_5824_lab.Kvtest.Porcupine.{Operation}
use mit_6_5824_lab.Kvtest.Porcupine.Linearizable.{Point, op_of, io_of, All, Rising, Within}
use mit_6_5824_lab.Kvtest.Porcupine.Marks.{Mark, at_rest, open_call, taken, pending_of, half}
use mit_6_5824_lab.Kvsrv.Lock.Steps.{cas_effect}
use text.Mathlib.TextPositions.{eq_refl}

-- The model's state after a history that it accepts.
abbrev pub after : KvState → List (KvInput × KvOutput) → Option KvState
after st [] = some st
after st ((inp, out) ∷ history) =
    let (legal, st') = step st inp out in
    if legal then (elim st' [ state s ↦ after s history | invalid ↦ none ]) else none

abbrev pub FitsMark : ℕ → KvServer → Mark → Type 0
FitsMark now kv at_rest = Unit
FitsMark now kv (open_call request start count) = start < now
FitsMark now kv (taken p start count point) =
    (start ≤ point) × (point < now) × (1 ≤ count) × (p.version < version_of (register kv p.key))

-- A step at the time `now`: the operations that it logs, with their points, and those that take effect in it.
pub record Turned (now cli : ℕ) (kv : KvServer) (m : Mark) (kv' : KvServer) (m' : Mark)
    (new : List Operation) : Type 0 where
  pub logged : List Point
  pub effects : List Point
  pub as_logged : map op_of logged ≡ new
  pub balance : map half logged ++ pending_of 0 cli m' ≡ effects ++ pending_of 0 cli m
  pub within : All Within logged
  pub rising : Rising now effects (now + 1)
  pub fits : FitsMark (now + 1) kv' m'
  pub rises : (k : String) → version_of (register kv k) ≤ version_of (register kv' k)
  pub by_one : (k : String) → version_of (register kv' k) ≤ version_of (register kv k) + 1
  pub legal :
      (k : String)
      → no_missing k (map io_of effects) ≡ true
      → after (state_of (register kv k)) (partition k (map io_of effects))
        ≡ some (state_of (register kv' k))

-- A step without effect.
pub quiet :
    (now cli : ℕ) (kv : KvServer) (m : Mark) (kv' : KvServer) (m' : Mark)
    → ((k : String) → register kv' k ≡ register kv k)
    → pending_of 0 cli m' ≡ pending_of 0 cli m
    → FitsMark (now + 1) kv' m'
    → Turned now cli kv m kv' m' []
unfolding partition
quiet now cli kv m kv' m' same pending fits = record {
  logged = [];
  effects = [];
  as_logged = refl;
  balance = pending;
  within = tt;
  rising = omega arith;
  fits = fits;
  rises = λ k. rw (same k) (omega arith);
  by_one = λ k. rw (same k) (omega arith);
  legal = λ k h. rw (same k) refl;
}

cas_versions :
    (o : Option Entry) (value : String) (version : ℕ)
    → version_of o + 1 < 2 ^ 64
    → (version_of o ≤ version_of (cas o value version))
      × (version_of (cas o value version) ≤ version_of o + 1)
cas_versions o value version small = elim (cas_effect o value version small) [
  | inl (hit, reply, wrote) ↦ rw wrote (omega arith, omega arith)
  | inr (miss, reply, same) ↦ rw same (omega arith, omega arith)
]

pub put_state_versions :
    (kv : KvServer) (p : PutArgs)
    → version_of (register kv p.key) + 1 < 2 ^ 64
    → (k : String)
    → (version_of (register kv k) ≤ version_of (register (put_state kv p) k))
      × (version_of (register (put_state kv p) k) ≤ version_of (register kv k) + 1)
put_state_versions kv p small k = elim (Bool-cases (str_eq p.key k)) [
  | inl same ↦
      let e = (eq_iff p.key k).0 same in
      rw (sym e)
        (rw (register_self kv p) (cas_versions (register kv p.key) p.value p.version small))
  | inr other ↦ rw ((put_state-Refines kv p).registers k) (rw other (omega arith, omega arith))
]

-- A put that names another version than the register's changes no register.
pub put_state_miss :
    (kv : KvServer) (p : PutArgs)
    → cas (register kv p.key) p.value p.version ≡ register kv p.key
    → (k : String) → register (put_state kv p) k ≡ register kv k
put_state_miss kv p miss k = elim (Bool-cases (str_eq p.key k)) [
  | inl same ↦ let e = (eq_iff p.key k).0 same in rw (sym e) (register_self kv p ∙ miss)
  | inr other ↦ (put_state-Refines kv p).registers k ∙ (rw other refl)
]

-- The model takes ErrMaybe for any put.
step_maybe :
    (o : Option Entry) (p : PutArgs)
    → step (state_of o) (put_input p) (put_output err_maybe)
      ≡ (true, state (state_of (cas o p.value p.version)))
unfolding step
step_maybe o p = ground arith

-- A put with the server's error or ErrMaybe is a step of the model.
pub put_legal :
    (kv : KvServer) (p : PutArgs) (err : Err)
    → (err ≡ cas_reply (register kv p.key) p.version) ⊎ (err ≡ err_maybe)
    → (k : String) → no_missing k ((put_input p, put_output err) ∷ []) ≡ true
    → after (state_of (register kv k)) (partition k ((put_input p, put_output err) ∷ []))
      ≡ some (state_of (register (put_state kv p) k))
unfolding partition no_missing
put_legal kv p err which k h = elim (Bool-cases (str_eq p.key k)) [
  | inl same ↦
      let e = (eq_iff p.key k).0 same in
      rw (sym e) (elim which [
        | inl server ↦ ground (arith, put_state-step kv p, eq_refl p.key, server, same, h)
        | inr maybe ↦
            ground
              (arith, step_maybe (register kv p.key) p, register_self kv p, eq_refl p.key, maybe)
      ])
  | inr other ↦ ground (arith, (put_state-Refines kv p).registers k, other)
]
