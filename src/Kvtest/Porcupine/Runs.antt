-- ===== src/Kvtest/Porcupine/Runs.antt =====
-- Runs of clients whose operations src/kvtest1/porcupine.go logs: the log is linearizable.
use mit_6_5824_lab.Kvtest.Porcupine.Calls.{op_turn_lem}
use mit_6_5824_lab.Prelude.{
  length, get_elem?, set, length-set, replicate, get_elem?-map, get_elem?_of_lt, get_elem?-set_inv,
  >>=-some, lookup, ℕ, zero, suc, ◌+◌, ◌^◌, ◌≤◌, ◌<◌, String, ◌≡◌, refl, sym, ap, ◌∙◌, inl, inr,
  true, ◌&&◌, some, List, [], ◌∷◌, ◌++◌, map, arith,
}
use mit_6_5824_lab.Models.Kv.{init_state, step, partition}
use mit_6_5824_lab.Models.Legal.{state_of}
use mit_6_5824_lab.Models.History.{no_missing}
use mit_6_5824_lab.Kvtest.Porcupine.{
  Operation, resting, OpSystem, append_all, Step, run_ops, start_ops,
}
use mit_6_5824_lab.Kvtest.Porcupine.Linearizable.{Point, op_of, io_of, All, Rising, Within}
use mit_6_5824_lab.Kvtest.Porcupine.Marks.{
  Mark, at_rest, open_call, taken, erase, pending_of, pending_from, half, Permᴰ_swap, Permᴰ_of_eq,
  pending-set,
}
use mit_6_5824_lab.Kvtest.Porcupine.Turns.{after, FitsMark, Turned}
use mit_6_5824_lab.Kvtest.Porcupine.Sequences.{
  Rising-append, All-append, partition-append, no_missing-append, after-append, map-append,
  append_all_lem, map-set,
}
use mit_6_5824_lab.Kvsrv.Server.{KvServer, make_kv_server}
use mit_6_5824_lab.Kvsrv.Registers.{register, version_of}
use mathlib.Core.List.{Permᴰ, append_assoc}
use mathlib.Core.List.Permᴰ as Permute
use mathlib.Core.Option
use mathlib.Core.Path.{subst}

-- What holds at the time `now`, with the operations of the log and their points, and those that have taken effect
-- in their order.
pub record Inv (now : ℕ) (sys : OpSystem) (marks : List Mark) (logged effects : List Point)
    : Type 0 where
  pub marked : map erase marks ≡ sys.clients
  pub as_logged : map op_of logged ≡ sys.log
  pub balance : Permᴰ (map half logged ++ pending_from 0 0 marks) effects
  pub within : All Within logged
  pub rising : Rising 0 effects now
  pub all_fit : (i : ℕ) (m : Mark) → get_elem? marks i ≡ some m → FitsMark now sys.kv m
  pub small : (k : String) → version_of (register sys.kv k) ≤ now
  pub legal :
      (k : String)
      → no_missing k (map io_of effects) ≡ true
      → after init_state (partition k (map io_of effects)) ≡ some (state_of (register sys.kv k))

FitsMark-later :
    (now : ℕ) (kv kv' : KvServer) (m : Mark)
    → ((k : String) → version_of (register kv k) ≤ version_of (register kv' k))
    → FitsMark now kv m
    → FitsMark (now + 1) kv' m
FitsMark-later now kv kv' at_rest rises f = tt
FitsMark-later now kv kv' (open_call request start count) rises f = omega (arith, f)
FitsMark-later now kv kv' (taken p start count point) rises f =
    (f.0, omega (arith, f.1), f.2, omega (arith, rises p.key, f.3))

balance_step :
    (cli : ℕ) (marks : List Mark) (m m' : Mark) (logged new effects more : List Point)
    → get_elem? marks cli ≡ some m
    → Permᴰ (map half logged ++ pending_from 0 0 marks) effects
    → map half new ++ pending_of 0 cli m' ≡ more ++ pending_of 0 cli m
    → Permᴰ (map half (logged ++ new) ++ pending_from 0 0 (set marks cli m')) (effects ++ more)
balance_step cli marks m m' logged new effects more at before step =
    let (others, p, q) = pending-set 0 0 cli marks cli m' (omega arith) at in
    let olds = map half logged in
    let news = map half new in
    let mine = pending_of 0 cli m in
    let mine' = pending_of 0 cli m' in
    let same : (olds ++ news) ++ (mine' ++ others) ≡ olds ++ (more ++ (mine ++ others)) =
      append_assoc olds news (mine' ++ others)
      ∙ ap (λ l. olds ++ l)
          (sym (append_assoc news mine' others)
            ∙ (ap (λ l. l ++ others) step ∙ append_assoc more mine others)) in
    let moved = Permᴰ.trans (Permᴰ_of_eq same) (
      Permᴰ.trans (Permᴰ_swap olds more (mine ++ others)) (
        Permute.append_left more
          (Permᴰ.trans (Permute.append_left olds (Permute.symm p)) before))) in
    Permᴰ.trans
      (Permᴰ_of_eq
        (ap (λ l. l ++ pending_from 0 0 (set marks cli m')) (map-append half logged new)))
      (Permᴰ.trans (Permute.append_left (olds ++ news) q)
        (Permᴰ.trans moved (Permute.append_comm more effects)))

no_missing_both :
    (k : String) (xs ys : List Point)
    → no_missing k (map io_of (xs ++ ys)) ≡ true
    → (no_missing k (map io_of xs) ≡ true) × (no_missing k (map io_of ys) ≡ true)
no_missing_both k xs ys h =
    let whole = map-append io_of xs ys in
    let both = no_missing-append k (map io_of xs) (map io_of ys) in
    let joined : no_missing k (map io_of xs) && no_missing k (map io_of ys) ≡ true =
      sym both ∙ (ap (no_missing k) (sym whole) ∙ h) in
    (ground (arith, joined), ground (arith, joined))

-- One step keeps the invariant.
Turned-Inv :
    (now cli : ℕ) (sys : OpSystem) (marks : List Mark) (logged effects : List Point) (m m' : Mark)
    (kv' : KvServer) (new : List Operation)
    → Inv now sys marks logged effects
    → get_elem? marks cli ≡ some m
    → (t : Turned now cli sys.kv m kv' m' new)
    → Inv
        (now + 1)
        (record {
          kv = kv';
          clients = set sys.clients cli (erase m');
          log = append_all sys.log new;
          ops = sys.ops + length new;
        })
        (set marks cli m')
        (logged ++ t.logged)
        (effects ++ t.effects)
Turned-Inv now cli sys marks logged effects m m' kv' new inv at t = record {
  marked = map-set erase marks cli m' ∙ ap (λ cs. set cs cli (erase m')) inv.marked;
  as_logged =
      map-append op_of logged t.logged
      ∙ (rw inv.as_logged (rw t.as_logged (sym (append_all_lem sys.log new))));
  balance = balance_step cli marks m m' logged t.logged effects t.effects at inv.balance t.balance;
  within = All-append Within logged t.logged inv.within t.within;
  rising = Rising-append 0 now (now + 1) effects t.effects inv.rising t.rising;
  all_fit = λ i x here. elim (get_elem?-set_inv marks cli i m' here) [
    | inl (same, is) ↦ rw is t.fits
    | inr (other, there) ↦ FitsMark-later now sys.kv kv' x t.rises (inv.all_fit i x there)
  ];
  small = λ k. omega (arith, inv.small k, t.by_one k);
  legal = λ k h.
      let whole = map-append io_of effects t.effects in
      let (first, second) = no_missing_both k effects t.effects h in
      rw whole (
        rw (partition-append k (map io_of effects) (map io_of t.effects))
          (after-append init_state _ _ (inv.legal k first) ∙ t.legal k second));
}

-- Each step of a schedule is that of one of `n` clients.
abbrev pub OfClients : ℕ → List Step → Type 0
OfClients n [] = Unit
OfClients n ((cli, request, fate) ∷ schedule) = (cli < n) × OfClients n schedule

pub run_from :
    (n now : ℕ) (schedule : List Step) (sys : OpSystem) (marks : List Mark)
    (logged effects : List Point)
    → Inv now sys marks logged effects
    → length marks ≡ n
    → OfClients n schedule
    → now + length schedule < 2 ^ 64
    → (sys' : OpSystem) × (marks' : List Mark) × (logged' : List Point) × (effects' : List Point)
      × (run_ops now schedule sys ≡ some sys')
      × Inv (now + length schedule) sys' marks' logged' effects'
unfolding run_ops
run_from n now [] sys marks logged effects inv len range small = (
  sys,
  marks,
  logged,
  effects,
  refl,
  subst (λ t. Inv t sys marks logged effects) (omega arith) inv,
)
run_from n now ((cli, request, fate) ∷ schedule) sys marks logged effects inv len range small =
    let (m, at) = get_elem?_of_lt marks cli (omega (arith, range.0)) in
    let (kv', m', new, turn, t) =
      op_turn_lem now cli request fate sys.kv m (inv.all_fit cli m at)
        (λ k. omega (arith, inv.small k)) in
    let there : get_elem? sys.clients cli ≡ some (erase m) =
      ap (λ cs. get_elem? cs cli) (sym inv.marked)
      ∙ (get_elem?-map erase marks cli ∙ ap (Option.map erase) at) in
    let (last, marks', logged', effects', run, inv') =
      run_from n (now + 1) schedule _ (set marks cli m') (logged ++ t.logged) (effects ++ t.effects)
        (Turned-Inv now cli sys marks logged effects m m' kv' new inv at t)
        (length-set marks cli m' ∙ len) range.1 (omega arith) in
    (
      last,
      marks',
      logged',
      effects',
      >>=-some _ _ there (>>=-some _ _ turn run),
      subst (λ k. Inv k last marks' logged' effects') (omega arith) inv',
    )

start-fit :
    (n i : ℕ) (m : Mark) → get_elem? (replicate n at_rest) i ≡ some m → FitsMark 0 make_kv_server m
start-fit zero i m at = cc
start-fit (suc n) zero m at = let e : m ≡ at_rest = cc in rw e tt
start-fit (suc n) (suc i) m at = start-fit n i m at

start-marked : (n : ℕ) → map erase (replicate n at_rest) ≡ replicate n resting
start-marked zero = refl
start-marked (suc n) = ap (λ l. resting ∷ l) (start-marked n)

start-pending : (cli n : ℕ) → pending_from 0 cli (replicate n at_rest) ≡ []
start-pending cli zero = refl
start-pending cli (suc n) = start-pending (cli + 1) n

pub start-Inv : (n : ℕ) → Inv 0 (start_ops n) (replicate n at_rest) [] []
unfolding start_ops register lookup partition
start-Inv n = record {
  marked = start-marked n;
  as_logged = refl;
  balance = Permᴰ_of_eq (start-pending 0 n);
  within = tt;
  rising = omega arith;
  all_fit = start-fit n;
  small = λ k. omega arith;
  legal = λ k h. refl;
}
