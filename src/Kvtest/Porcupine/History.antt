-- ===== src/Kvtest/Porcupine/History.antt =====
-- The log of src/kvtest1/porcupine.go after a run of clients of src/kvsrv1 is linearizable.
use mit_6_5824_lab.Prelude.{
  Bool-cases, length, get_elem?, replicate, length-replicate, get_elem?-map, ℕ, suc, ◌+◌, ◌^◌, ◌<◌,
  ◌≡◌, refl, sym, ap, ◌∙◌, inl, inr, some, List, [], ◌∷◌, ◌++◌, map, arith,
}
use mit_6_5824_lab.Kvtest.Porcupine.Sequences.{All-append, accepts-after, map-append}
use mit_6_5824_lab.Kvsrv.Server.{KvServer}
use mit_6_5824_lab.Kvtest.Porcupine.{Stage, calling, OpSystem, Step, run_ops, start_ops}
use mit_6_5824_lab.Kvtest.Porcupine.Linearizable.{
  Point, op_of, io_of, All, Rising, Within, Unanswered, Linearized,
}
use mit_6_5824_lab.Kvtest.Porcupine.Marks.{
  Mark, at_rest, open_call, taken, erase, taken_op, pending_from, half, Permᴰ_of_eq, Permᴰ-map_inv,
  All-perm,
}
use mit_6_5824_lab.Kvtest.Porcupine.Turns.{FitsMark}
use mit_6_5824_lab.Kvtest.Porcupine.Runs.{Inv, OfClients, run_from, start-Inv}
use mathlib.Core.List.{Permᴰ}
use mathlib.Core.List.Permᴰ as Permute
use mathlib.Core.Option
use mathlib.Core.Path.{subst}
use mit_6_5824_lab.Models.Kv.{init_state}
use mit_6_5824_lab.Models.History.{put_request, no_missing}

half-pending :
    (now cli : ℕ) (ms : List Mark) → map half (pending_from now cli ms) ≡ pending_from 0 cli ms
half-pending now cli [] = refl
half-pending now cli (at_rest ∷ ms) = half-pending now (cli + 1) ms
half-pending now cli (open_call request start count ∷ ms) = half-pending now (cli + 1) ms
half-pending now cli (taken p start count point ∷ ms) =
    ap (λ l. (point, taken_op cli p start 0) ∷ l) (half-pending now (cli + 1) ms)

-- The marks from client `cli` on are those of the clients.
MarksOf : ℕ → List Stage → List Mark → Type 0
MarksOf cli clients ms =
    (i : ℕ) (m : Mark) → get_elem? ms i ≡ some m → get_elem? clients (cli + i) ≡ some (erase m)

MarksOf-cons :
    (cli : ℕ) (clients : List Stage) (m : Mark) (ms : List Mark)
    → MarksOf cli clients (m ∷ ms)
    → MarksOf (cli + 1) clients ms
unfolding MarksOf
MarksOf-cons cli clients m ms there i x h =
    subst (λ j. get_elem? clients j ≡ some (erase x)) (omega arith) (there (suc i) x h)

pending-Unanswered :
    (now cli : ℕ) (clients : List Stage) (ms : List Mark)
    → MarksOf cli clients ms
    → All (Unanswered now clients) (map op_of (pending_from now cli ms))
unfolding MarksOf
pending-Unanswered now cli clients [] there = tt
pending-Unanswered now cli clients (at_rest ∷ ms) there =
    pending-Unanswered now (cli + 1) clients ms (MarksOf-cons cli clients at_rest ms there)
pending-Unanswered now cli clients (open_call request start count ∷ ms) there =
    pending-Unanswered now (cli + 1) clients ms (MarksOf-cons cli clients _ ms there)
pending-Unanswered now cli clients (taken p start count point ∷ ms) there = (
  (
    p,
    count,
    subst (λ j. get_elem? clients j ≡ some (calling (put_request p) start count)) (omega arith)
        (there 0 (taken p start count point) refl),
    refl,
    refl,
  ),
  pending-Unanswered now (cli + 1) clients ms (MarksOf-cons cli clients _ ms there),
)

Inv-MarksOf :
    (now : ℕ) (sys : OpSystem) (marks : List Mark) (logged effects : List Point)
    → Inv now sys marks logged effects
    → MarksOf 0 sys.clients marks
unfolding MarksOf
Inv-MarksOf now sys marks logged effects inv i m h =
    subst (λ j. get_elem? sys.clients j ≡ some (erase m)) (omega arith)
      (ap (λ cs. get_elem? cs i) (sym inv.marked)
        ∙ (get_elem?-map erase marks i ∙ ap (Option.map erase) h))

pending-Within :
    (now cli : ℕ) (kv : KvServer) (ms : List Mark)
    → ((i : ℕ) (m : Mark) → get_elem? ms i ≡ some m → FitsMark now kv m)
    → All Within (pending_from now cli ms)
pending-Within now cli kv [] fit = tt
pending-Within now cli kv (at_rest ∷ ms) fit =
    pending-Within now (cli + 1) kv ms (λ i m h. fit (suc i) m h)
pending-Within now cli kv (open_call request start count ∷ ms) fit =
    pending-Within now (cli + 1) kv ms (λ i m h. fit (suc i) m h)
pending-Within now cli kv (taken p start count point ∷ ms) fit =
    let here = fit 0 (taken p start count point) refl in
    ((here.0, omega (arith, here.1)), pending-Within now (cli + 1) kv ms (λ i m h. fit (suc i) m h))

half-Rising : (lo hi : ℕ) (xs : List Point) → Rising lo (map half xs) hi → Rising lo xs hi
half-Rising lo hi [] r = r
half-Rising lo hi (x ∷ xs) r = (r.0, half-Rising (x.0 + 1) hi xs r.1)

half-io_of : (xs : List Point) → map io_of (map half xs) ≡ map io_of xs
half-io_of [] = refl
half-io_of (x ∷ xs) = ap (λ l. io_of x ∷ l) (half-io_of xs)

Inv-Linearized :
    (now : ℕ) (sys : OpSystem) (marks : List Mark) (logged effects : List Point)
    → Inv now sys marks logged effects
    → Linearized now sys.clients sys.log
Inv-Linearized now sys marks logged effects inv =
    let open_ops = pending_from now 0 marks in
    let halves : map half (logged ++ open_ops) ≡ map half logged ++ pending_from 0 0 marks =
      map-append half logged open_ops ∙ ap (λ l. map half logged ++ l) (half-pending now 0 marks) in
    let (order, perm, ordered) = Permᴰ-map_inv half inv.balance (logged ++ open_ops) halves in
    let shown : sys.log ++ map op_of open_ops ≡ map op_of (logged ++ open_ops) =
      ap (λ l. l ++ map op_of open_ops) (sym inv.as_logged)
      ∙ sym (map-append op_of logged open_ops) in
    let same_io : map io_of order ≡ map io_of effects =
      sym (half-io_of order) ∙ ap (map io_of) ordered in
    record {
      order = order;
      pending = map op_of open_ops;
      in_progress =
          pending-Unanswered now 0 sys.clients marks (Inv-MarksOf now sys marks logged effects inv);
      same = Permᴰ.trans (Permᴰ_of_eq shown) (Permute.map op_of perm);
      within = All-perm Within perm (
          All-append Within logged open_ops inv.within
            (pending-Within now 0 sys.kv marks inv.all_fit));
      rising = half-Rising 0 now order (subst (λ l. Rising 0 l now) (sym ordered) inv.rising);
      legal = λ k. rw same_io (elim (Bool-cases (no_missing k (map io_of effects))) [
        | inl all ↦ let ok = accepts-after init_state _ (inv.legal k all) in ground (arith, all, ok)
        | inr missing ↦ ground (arith, missing)
      ]);
    }

-- Any number of clients of a server that starts without keys, with any gets and puts, in any order of their
-- calls, whatever the network loses, and in fewer than 2^64 steps: no process ends, and the log of the operations,
-- with the puts that have been performed but not answered, has an order in which each takes effect between its call
-- and its return and which the model accepts on each key to which no put was answered with ErrNoKey.
pub run_ops-Linearized :
    (n : ℕ) (schedule : List Step)
    → OfClients n schedule
    → length schedule < 2 ^ 64
    → (sys : OpSystem) × (run_ops 0 schedule (start_ops n) ≡ some sys)
      × Linearized (length schedule) sys.clients sys.log
run_ops-Linearized n schedule range small =
    let (sys, marks, logged, effects, run, inv) =
      run_from n 0 schedule (start_ops n) (replicate n at_rest) [] [] (start-Inv n)
        (length-replicate n at_rest) range (omega arith) in
    (
      sys,
      run,
      subst (λ t. Linearized t sys.clients sys.log) (omega arith)
          (Inv-Linearized _ sys marks logged effects inv),
    )
