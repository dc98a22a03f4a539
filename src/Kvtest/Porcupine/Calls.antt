-- ===== src/Kvtest/Porcupine/Calls.antt =====
-- A call of a clerk, as src/kvtest1/porcupine.go logs it, keeps what the marks say.
use mit_6_5824_lab.Kvsrv.Lock.Steps.{error_of, cas_effect}
use text.Mathlib.TextPositions.{eq_refl}
use mit_6_5824_lab.Prelude.{
  ltb, Bool-cases, ℕ, ◌+◌, ◌^◌, ◌≤◌, ◌<◌, String, ◌≡◌, refl, sym, ◌⊎◌, inl, inr, ◌&&◌, Option, none,
  some, List, [], ◌∷◌, arith, str_eq, eq_iff,
}
use mit_6_5824_lab.Kvsrv.Clerk.Single.{one_turn, register_self, put_loop-one, clerk_get-one}
use mit_6_5824_lab.Kvsrv.Rpc.{Err, err_maybe, is_version, GetArgs, PutArgs, fresh_get}
use mit_6_5824_lab.Kvsrv.Server.{Entry, KvServer, get}
use mit_6_5824_lab.Kvsrv.Clerk.{Fate, request_lost, reply_lost, delivered, returned, clerk_get}
use mit_6_5824_lab.Kvsrv.Registers.{register, cas, cas_reply, version_of, put_state, serve_puts}
use mit_6_5824_lab.Models.Kv.{partition}
use mit_6_5824_lab.Models.Legal.{state_of, put_input, put_output, get_input, get_output, get-step}
use mit_6_5824_lab.Models.History.{Request, get_request, put_request}
use mit_6_5824_lab.Kvtest.Porcupine.{Operation, get_turn, put_turn, op_turn}
use mit_6_5824_lab.Kvtest.Porcupine.Marks.{Mark, at_rest, open_call, taken, erase, taken_op}
use mit_6_5824_lab.Kvtest.Porcupine.Turns.{
  after, FitsMark, Turned, quiet, put_state_versions, put_state_miss, put_legal,
}

abbrev op_at : ℕ → PutArgs → ℕ → Err → ℕ → Operation
op_at cli p start err ret = record {
  client_id = cli;
  input = put_input p;
  call = start;
  output = put_output err;
  ret = ret;
}

-- A put that has not been performed, at a call that is answered.
open_answered :
    (now cli : ℕ) (kv : KvServer) (p : PutArgs) (start count : ℕ) (err : Err)
    → start < now
    → version_of (register kv p.key) + 1 < 2 ^ 64
    → (err ≡ cas_reply (register kv p.key) p.version) ⊎ (err ≡ err_maybe)
    → Turned now cli kv
        (open_call (put_request p) start count)
        (put_state kv p)
        at_rest
        (op_at cli p start err now ∷ [])
open_answered now cli kv p start count err began small which = record {
  logged = (now, op_at cli p start err now) ∷ [];
  effects = (now, op_at cli p start err 0) ∷ [];
  as_logged = refl;
  balance = refl;
  within = ((omega arith, omega arith), tt);
  rising = (omega arith, omega arith);
  fits = tt;
  rises = λ k. (put_state_versions kv p small k).0;
  by_one = λ k. (put_state_versions kv p small k).1;
  legal = put_legal kv p err which;
}

-- A put that is performed, at a call whose reply is lost.
open_taken :
    (now cli : ℕ) (kv : KvServer) (p : PutArgs) (start count : ℕ)
    → start < now
    → version_of (register kv p.key) + 1 < 2 ^ 64
    → p.version < version_of (register (put_state kv p) p.key)
    → Turned now cli kv
        (open_call (put_request p) start count)
        (put_state kv p)
        (taken p start (count + 1) now)
        []
open_taken now cli kv p start count began small newer = record {
  logged = [];
  effects = (now, taken_op cli p start 0) ∷ [];
  as_logged = refl;
  balance = refl;
  within = tt;
  rising = (omega arith, omega arith);
  fits = (omega arith, omega arith, omega arith, newer);
  rises = λ k. (put_state_versions kv p small k).0;
  by_one = λ k. (put_state_versions kv p small k).1;
  legal = put_legal kv p err_maybe (inr refl);
}

error_cases :
    (o : Option Entry) (version count : ℕ)
    → (error_of o version count ≡ cas_reply o version) ⊎ (error_of o version count ≡ err_maybe)
error_cases o version count =
    elim (Bool-cases (is_version (cas_reply o version) && ltb 1 (count + 1))) [
      | inl late ↦ inr (rw late refl)
      | inr first ↦ inl (rw first refl)
    ]

-- The result of a step.
abbrev pub Goes : ℕ → ℕ → Request → Fate → KvServer → Mark → Type 0
Goes now cli request fate kv m =
    (kv' : KvServer) × (m' : Mark) × (new : List Operation) × (op_turn cli now request fate kv
        (erase m)
      ≡ some (kv', erase m', new))
    × Turned now cli kv m kv' m' new

open_put :
    (now cli : ℕ) (request : Request) (fate : Fate) (kv : KvServer) (p : PutArgs) (start count : ℕ)
    → start < now
    → version_of (register kv p.key) + 1 < 2 ^ 64
    → Goes now cli request fate kv (open_call (put_request p) start count)
unfolding op_turn put_turn
open_put now cli request request_lost kv p start count began small = (
  kv,
  open_call (put_request p) start (count + 1),
  [],
  ground (arith, (put_loop-one kv p count).0),
  quiet now cli kv _ kv _ (λ k. refl) refl (omega arith),
)
open_put now cli request reply_lost kv p start count began small =
    elim (cas_effect (register kv p.key) p.value p.version small) [
      | inl (hit, reply, wrote) ↦ (
        put_state kv p,
        taken p start (count + 1) now,
        [],
        ground (arith, (put_loop-one kv p count).1),
        open_taken now cli kv p start count began small
            (rw (register_self kv p) (rw wrote (omega arith))),
      )
      | inr (miss, reply, same) ↦ (
        put_state kv p,
        open_call (put_request p) start (count + 1),
        [],
        ground (arith, (put_loop-one kv p count).1),
        quiet now cli kv _ (put_state kv p) _ (put_state_miss kv p same) refl (omega arith),
      )
    ]
open_put now cli request delivered kv p start count began small = (
  put_state kv p,
  at_rest,
  op_at cli p start (error_of (register kv p.key) p.version count) now ∷ [],
  ground (arith, (put_loop-one kv p count).2),
  open_answered now cli kv p start count _ began small
      (error_cases (register kv p.key) p.version count),
)

-- A put that has been performed is not performed again, and is answered with ErrMaybe.
late_reply :
    (o : Option Entry) (value : String) (version count : ℕ)
    → version < version_of o
    → 1 ≤ count
    → (cas o value version ≡ o) × (error_of o version count ≡ err_maybe)
late_reply none value version count newer again = absurd (omega arith)
late_reply (some entry) value version count newer again = (ground arith, ground arith)

taken_put :
    (now cli : ℕ) (request : Request) (fate : Fate) (kv : KvServer) (p : PutArgs)
    (start count point : ℕ)
    → FitsMark now kv (taken p start count point)
    → Goes now cli request fate kv (taken p start count point)
unfolding op_turn put_turn partition
taken_put now cli request request_lost kv p start count point (before, past, again, newer) = (
  kv,
  taken p start (count + 1) point,
  [],
  ground (arith, (put_loop-one kv p count).0),
  quiet now cli kv _ kv _ (λ k. refl) refl (before, omega arith, omega arith, newer),
)
taken_put now cli request reply_lost kv p start count point (before, past, again, newer) =
    let (same, late) = late_reply (register kv p.key) p.value p.version count newer again in
    (
      put_state kv p,
      taken p start (count + 1) point,
      [],
      ground (arith, (put_loop-one kv p count).1),
      quiet now cli kv _ (put_state kv p) _ (put_state_miss kv p same) refl
          (before, omega arith, omega arith, rw (put_state_miss kv p same p.key) newer),
    )
taken_put now cli request delivered kv p start count point (before, past, again, newer) =
    let (same, late) = late_reply (register kv p.key) p.value p.version count newer again in
    let unchanged = put_state_miss kv p same in
    (
      put_state kv p,
      at_rest,
      taken_op cli p start now ∷ [],
      ground (arith, (put_loop-one kv p count).2, late),
      record {
        logged = (point, taken_op cli p start now) ∷ [];
        effects = [];
        as_logged = refl;
        balance = refl;
        within = ((before, omega arith), tt);
        rising = omega arith;
        fits = tt;
        rises = λ k. rw (unchanged k) (omega arith);
        by_one = λ k. rw (unchanged k) (omega arith);
        legal = λ k h. rw (unchanged k) refl;
      },
    )

clerk_get-delivered :
    (kv : KvServer) (g : GetArgs)
    → clerk_get kv g (one_turn delivered) ≡ returned kv (get kv g fresh_get)
unfolding clerk_get serve_puts
clerk_get-delivered kv g = refl

get_legal :
    (kv : KvServer) (g : GetArgs) (k : String)
    → after
        (state_of (register kv k))
        (partition k ((get_input g, get_output (get kv g fresh_get)) ∷ []))
      ≡ some (state_of (register kv k))
unfolding partition
get_legal kv g k = elim (Bool-cases (str_eq g.key k)) [
  | inl same ↦
      let e = (eq_iff g.key k).0 same in rw (sym e) (ground (arith, get-step kv g, eq_refl g.key))
  | inr other ↦ ground (arith, other)
]

abbrev get_op : ℕ → KvServer → GetArgs → ℕ → ℕ → Operation
get_op cli kv g start ret = record {
  client_id = cli;
  input = get_input g;
  call = start;
  output = get_output (get kv g fresh_get);
  ret = ret;
}

open_get :
    (now cli : ℕ) (request : Request) (fate : Fate) (kv : KvServer) (g : GetArgs) (start count : ℕ)
    → start < now
    → Goes now cli request fate kv (open_call (get_request g) start count)
unfolding op_turn get_turn
open_get now cli request request_lost kv g start count began = (
  kv,
  open_call (get_request g) start (count + 1),
  [],
  ground (arith, (clerk_get-one kv g.key).0),
  quiet now cli kv _ kv _ (λ k. refl) refl (omega arith),
)
open_get now cli request reply_lost kv g start count began = (
  kv,
  open_call (get_request g) start (count + 1),
  [],
  ground (arith, (clerk_get-one kv g.key).1),
  quiet now cli kv _ kv _ (λ k. refl) refl (omega arith),
)
open_get now cli request delivered kv g start count began = (
  kv,
  at_rest,
  get_op cli kv g start now ∷ [],
  ground (arith, clerk_get-delivered kv g),
  record {
    logged = (now, get_op cli kv g start now) ∷ [];
    effects = (now, get_op cli kv g start 0) ∷ [];
    as_logged = refl;
    balance = refl;
    within = ((omega arith, omega arith), tt);
    rising = (omega arith, omega arith);
    fits = tt;
    rises = λ k. omega arith;
    by_one = λ k. omega arith;
    legal = λ k h. get_legal kv g k;
  },
)

-- Any step of any client.
pub op_turn_lem :
    (now cli : ℕ) (request : Request) (fate : Fate) (kv : KvServer) (m : Mark)
    → FitsMark now kv m
    → ((k : String) → version_of (register kv k) + 1 < 2 ^ 64)
    → Goes now cli request fate kv m
unfolding op_turn
op_turn_lem now cli request fate kv at_rest fits small =
    (kv, open_call request now 0, [], refl, quiet now cli kv _ kv _ (λ k. refl) refl (omega arith))
op_turn_lem now cli request fate kv (open_call (get_request g) start count) fits small =
    open_get now cli request fate kv g start count fits
op_turn_lem now cli request fate kv (open_call (put_request p) start count) fits small =
    open_put now cli request fate kv p start count fits (small p.key)
op_turn_lem now cli request fate kv (taken p start count point) fits small =
    taken_put now cli request fate kv p start count point fits
