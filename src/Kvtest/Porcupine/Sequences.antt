-- ===== src/Kvtest/Porcupine/Sequences.antt =====
-- Histories of src/kvtest1/porcupine.go one after another, before the model of src/models1/kv.go.
use mathlib.Core.List.{append-nil, append_assoc}
use mit_6_5824_lab.Prelude.{
  if◌then◌else◌, Bool-cases, set, ℕ, zero, suc, ◌+◌, ◌≤◌, String, ◌≡◌, refl, sym, ap, ◌∙◌, inl, inr,
  Bool, true, false, ◌&&◌, none, some, List, [], ◌∷◌, ◌++◌, map, arith, str_eq,
}
use mit_6_5824_lab.Models.Kv.{
  KvInput, KvOutput, KvState, StepState, state, invalid, step, partition, accepts,
}
use mit_6_5824_lab.Models.History.{no_missing}
use mit_6_5824_lab.Kvtest.Porcupine.{Operation, append_op, append_all}
use mit_6_5824_lab.Kvtest.Porcupine.Linearizable.{Point, All, Rising}
use mit_6_5824_lab.Kvtest.Porcupine.Turns.{after}

Rising-le : (lo mid hi : ℕ) (xs : List Point) → lo ≤ mid → Rising mid xs hi → Rising lo xs hi
Rising-le lo mid hi [] le r = omega arith
Rising-le lo mid hi (x ∷ xs) le r = (omega (arith, r.0), r.1)

pub Rising-append :
    (lo mid hi : ℕ) (xs ys : List Point)
    → Rising lo xs mid
    → Rising mid ys hi
    → Rising lo (xs ++ ys) hi
Rising-append lo mid hi [] ys r s = Rising-le lo mid hi ys r s
Rising-append lo mid hi (x ∷ xs) ys r s = (r.0, Rising-append (x.0 + 1) mid hi xs ys r.1 s)

pub All-append :
    {A : Type 0} (P : A → Type 0) (xs ys : List A) → All P xs → All P ys → All P (xs ++ ys)
All-append P [] ys a b = b
All-append P (x ∷ xs) ys a b = (a.0, All-append P xs ys a.1 b)

pub partition-append :
    (k : String) (xs ys : List (KvInput × KvOutput))
    → partition k (xs ++ ys) ≡ partition k xs ++ partition k ys
unfolding partition
partition-append k [] ys = refl
partition-append k (x ∷ xs) ys = elim (Bool-cases (str_eq x.0.key k)) [
  | inl same ↦ rw same (ap (λ l. x ∷ l) (partition-append k xs ys))
  | inr other ↦ rw other (partition-append k xs ys)
]

pub no_missing-append :
    (k : String) (xs ys : List (KvInput × KvOutput))
    → no_missing k (xs ++ ys) ≡ no_missing k xs && no_missing k ys
unfolding no_missing
no_missing-append k [] ys = refl
no_missing-append k (x ∷ xs) ys = ground (arith, no_missing-append k xs ys)

legal_step :
    (r : Bool × StepState) (xs : List (KvInput × KvOutput)) {s : KvState}
    → (if r.0 then (elim r.1 [ state t ↦ after t xs | invalid ↦ none ]) else none) ≡ some s
    → (t : KvState) × (r ≡ (true, state t)) × (after t xs ≡ some s)
legal_step (true, state t) xs h = (t, refl, h)
legal_step (true, invalid) xs h = cc
legal_step (false, t) xs h = cc

pub after-append :
    (st : KvState) (xs ys : List (KvInput × KvOutput)) {s : KvState}
    → after st xs ≡ some s
    → after st (xs ++ ys) ≡ after s ys
after-append st [] ys {s = s} h = let same : st ≡ s = cc in rw same refl
after-append st ((inp, out) ∷ xs) ys h =
    let (t, legal, later) = legal_step (step st inp out) xs h in
    rw legal (after-append t xs ys later)

pub accepts-after :
    (st : KvState) (xs : List (KvInput × KvOutput)) {s : KvState}
    → after st xs ≡ some s
    → accepts (state st) xs ≡ true
unfolding accepts
accepts-after st [] h = refl
accepts-after st ((inp, out) ∷ xs) h =
    let (t, legal, later) = legal_step (step st inp out) xs h in rw legal (accepts-after t xs later)

pub map-append :
    {A B : Type 0} (f : A → B) (xs ys : List A) → map f (xs ++ ys) ≡ map f xs ++ map f ys
map-append f [] ys = refl
map-append f (x ∷ xs) ys = ap (λ l. f x ∷ l) (map-append f xs ys)

pub append_all_lem : (log new : List Operation) → append_all log new ≡ log ++ new
unfolding append_all append_op
append_all_lem log [] = sym (append-nil log)
append_all_lem log (op ∷ new) =
    append_all_lem (log ++ (op ∷ [])) new ∙ append_assoc log (op ∷ []) new

pub map-set :
    {A B : Type 0} (f : A → B) (xs : List A) (i : ℕ) (x : A)
    → map f (set xs i x) ≡ set (map f xs) i (f x)
map-set f [] i x = refl
map-set f (y ∷ ys) zero x = refl
map-set f (y ∷ ys) (suc i) x = ap (λ l. f y ∷ l) (map-set f ys i x)
