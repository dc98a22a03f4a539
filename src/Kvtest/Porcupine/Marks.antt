-- ===== src/Kvtest/Porcupine/Marks.antt =====
-- Clients of src/kvtest1/porcupine.go with a mark on those whose put the server has performed, but not answered:
-- the point at which it did.
use mathlib.Core.List.{Permᴰ, append_assoc}
use mathlib.Core.List.Permᴰ as Permute
use mathlib.Core.Path.{subst}
use mit_6_5824_lab.Prelude.{
  get_elem?, set, ℕ, zero, suc, ◌+◌, ◌≡◌, refl, some, List, [], ◌∷◌, ◌++◌, map, arith,
}
use mit_6_5824_lab.Kvsrv.Rpc.{err_maybe, PutArgs}
use mit_6_5824_lab.Models.Legal.{put_input, put_output}
use mit_6_5824_lab.Models.History.{Request, put_request}
use mit_6_5824_lab.Kvtest.Porcupine.{Operation, Stage, resting, calling}
use mit_6_5824_lab.Kvtest.Porcupine.Linearizable.{Point, All}

pub data Mark : Type 0 where
  at_rest : Mark
  open_call : Request → ℕ → ℕ → Mark
  taken : PutArgs → ℕ → ℕ → ℕ → Mark

abbrev pub erase : Mark → Stage
erase at_rest = resting
erase (open_call request start count) = calling request start count
erase (taken p start count point) = calling (put_request p) start count

-- The operation of a put that has been performed and not answered. If it is answered, then with
-- ErrMaybe.
abbrev pub taken_op : ℕ → PutArgs → ℕ → ℕ → Operation
taken_op cli p start ret = record {
  client_id = cli;
  input = put_input p;
  call = start;
  output = put_output err_maybe;
  ret = ret;
}

abbrev pub pending_of : ℕ → ℕ → Mark → List Point
pending_of ret cli at_rest = []
pending_of ret cli (open_call request start count) = []
pending_of ret cli (taken p start count point) = (point, taken_op cli p start ret) ∷ []

abbrev pub pending_from : ℕ → ℕ → List Mark → List Point
pending_from ret cli [] = []
pending_from ret cli (m ∷ ms) = pending_of ret cli m ++ pending_from ret (cli + 1) ms

-- An operation whose return is forgotten.
abbrev pub half : Point → Point
half x = (x.0, record x.1 { ret = 0 })

pub Permᴰ_swap : {A : Type 0} (xs ys zs : List A) → Permᴰ (xs ++ (ys ++ zs)) (ys ++ (xs ++ zs))
Permᴰ_swap xs ys zs =
    subst (λ l. Permᴰ l (ys ++ (xs ++ zs))) (append_assoc xs ys zs)
      (subst (λ l. Permᴰ ((xs ++ ys) ++ zs) l) (append_assoc ys xs zs)
        (Permute.append_right zs (Permute.append_comm xs ys)))

pub Permᴰ_of_eq : {A : Type 0} {xs ys : List A} → xs ≡ ys → Permᴰ xs ys
Permᴰ_of_eq {xs = xs} e = subst (λ l. Permᴰ xs l) e (Permute.refl xs)

-- The pending operations are those of one client and those of the others.
pub pending-set :
    (ret cli j : ℕ) (ms : List Mark) (i : ℕ) {m : Mark} (m' : Mark)
    → cli + i ≡ j
    → get_elem? ms i ≡ some m
    → (others : List Point) × Permᴰ (pending_from ret cli ms) (pending_of ret j m ++ others)
      × Permᴰ (pending_from ret cli (set ms i m')) (pending_of ret j m' ++ others)
pending-set ret cli j [] i m' e at = cc
pending-set ret cli j (x ∷ ms) zero {m = m} m' e at =
    let same : x ≡ m = cc in
    let here : cli ≡ j = omega arith in
    (pending_from ret (cli + 1) ms, rw here (rw same (Permute.refl _)), rw here (Permute.refl _))
pending-set ret cli j (x ∷ ms) (suc i) {m = m} m' e at =
    let (others, before, after) = pending-set ret (cli + 1) j ms i m' (omega arith) at in
    (
      pending_of ret cli x ++ others,
      Permᴰ.trans (Permute.append_left (pending_of ret cli x) before)
          (Permᴰ_swap (pending_of ret cli x) (pending_of ret j m) others),
      Permᴰ.trans (Permute.append_left (pending_of ret cli x) after)
          (Permᴰ_swap (pending_of ret cli x) (pending_of ret j m') others),
    )

-- Lists whose images are permutations of each other.
pub Permᴰ-map_inv :
    {A B : Type 0} (f : A → B) {bs cs : List B}
    → Permᴰ bs cs
    → (xs : List A) → map f xs ≡ bs
    → (ys : List A) × Permᴰ xs ys × (map f ys ≡ cs)
Permᴰ-map_inv f Permᴰ.nil [] e = ([], Permᴰ.nil, refl)
Permᴰ-map_inv f Permᴰ.nil (x ∷ xs) e = cc
Permᴰ-map_inv f (Permᴰ.cons h p) [] e = cc
Permᴰ-map_inv f (Permᴰ.cons h p) (x ∷ xs) e =
    let (ys, q, i) = Permᴰ-map_inv f p xs cc in (x ∷ ys, Permᴰ.cons refl q, cc)
Permᴰ-map_inv f (Permᴰ.swap h i) [] e = cc
Permᴰ-map_inv f (Permᴰ.swap h i) (x ∷ []) e = cc
Permᴰ-map_inv f (Permᴰ.swap h i) (x ∷ (y ∷ xs)) e = (y ∷ (x ∷ xs), Permᴰ.swap refl refl, cc)
Permᴰ-map_inv f (Permᴰ.trans p q) xs e =
    let (ys, r, i) = Permᴰ-map_inv f p xs e in
    let (zs, s, j) = Permᴰ-map_inv f q ys i in (zs, Permᴰ.trans r s, j)

pub All-perm : {A : Type 0} (P : A → Type 0) {xs ys : List A} → Permᴰ xs ys → All P xs → All P ys
All-perm P Permᴰ.nil all = all
All-perm P (Permᴰ.cons e p) all = (subst P e all.0, All-perm P p all.1)
All-perm P (Permᴰ.swap e f) all = (subst P f all.1.0, (subst P e all.0, all.1.1))
All-perm P (Permᴰ.trans p q) all = All-perm P q (All-perm P p all)
