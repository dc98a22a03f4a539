-- ===== src/Mr/Sequential/Runs.antt =====
-- Runs of records with the same key, as the loops of src/main/mrsequential.go find them.
use mit_6_5824_lab.Prelude.{
  if◌then◌else◌, Bool-cases, Option-cases, length, get_elem?, take, drop, get_elem?_of_lt, ℕ, zero,
  suc, ◌+◌, ◌≤◌, String, ◌≡◌, refl, sym, ap, ◌∙◌, inl, inr, none, some, List, [], ◌∷◌, map, arith,
  str_eq, eq_iff,
}
use mit_6_5824_lab.Mr.Worker.{KeyValue}
use mit_6_5824_lab.Mr.Sequential.{group_end, group_values}

-- The records with one key after another: the key, and their values.
abbrev pub add_run : KeyValue → List (String × List String) → List (String × List String)
add_run kv [] = (kv.key, kv.value ∷ []) ∷ []
add_run kv ((k, vs) ∷ runs) =
    if str_eq k kv.key
    then (k, kv.value ∷ vs) ∷ runs
    else (kv.key, kv.value ∷ []) ∷ ((k, vs) ∷ runs)

abbrev pub runs_of : List KeyValue → List (String × List String)
runs_of [] = []
runs_of (kv ∷ kvs) = add_run kv (runs_of kvs)

-- How many records at the front have the key.
abbrev pub same_keys : String → List KeyValue → ℕ
same_keys key [] = 0
same_keys key (kv ∷ kvs) = if str_eq kv.key key then suc (same_keys key kvs) else 0

abbrev pub values_of : List KeyValue → List String
values_of kvs = map (λ kv. kv.value) kvs

-- The first run is that of the first record.
pub runs_of-cons :
    (kv : KeyValue) (kvs : List KeyValue)
    → runs_of (kv ∷ kvs)
      ≡ (kv.key, kv.value ∷ values_of (take (same_keys kv.key kvs) kvs))
        ∷ runs_of (drop (same_keys kv.key kvs) kvs)
runs_of-cons kv [] = refl
runs_of-cons kv (x ∷ kvs) = elim (Bool-cases (str_eq x.key kv.key)) [
  | inl same ↦
      let e = (eq_iff x.key kv.key).0 same in
      ap (add_run kv) (runs_of-cons x kvs) ∙ rw same (rw e refl)
  | inr other ↦ ap (add_run kv) (runs_of-cons x kvs) ∙ rw other (rw (runs_of-cons x kvs) refl)
]

pub get_elem?-drop :
    {A : Type 0} (xs : List A) (i : ℕ) {x : A}
    → get_elem? xs i ≡ some x
    → drop i xs ≡ x ∷ drop (suc i) xs
get_elem?-drop [] i h = cc
get_elem?-drop (x ∷ xs) zero {x = y} h = let same : x ≡ y = cc in rw same refl
get_elem?-drop (x ∷ xs) (suc i) h = get_elem?-drop xs i h

pub get_elem?-drop-none :
    {A : Type 0} (xs : List A) (i : ℕ) → get_elem? xs i ≡ none → drop i xs ≡ []
get_elem?-drop-none [] zero h = refl
get_elem?-drop-none [] (suc i) h = refl
get_elem?-drop-none (x ∷ xs) zero h = cc
get_elem?-drop-none (x ∷ xs) (suc i) h = get_elem?-drop-none xs i h

pub drop_succ : {A : Type 0} (i : ℕ) (xs : List A) → drop (i + 1) xs ≡ drop (suc i) xs
drop_succ i xs = let e : i + 1 ≡ suc i = omega arith in ap (λ k. drop k xs) e

drop-nil : {A : Type 0} (n : ℕ) → drop {A = A} n [] ≡ []
drop-nil zero = refl
drop-nil (suc n) = refl

pub drop-drop : {A : Type 0} (m n : ℕ) (xs : List A) → drop m (drop n xs) ≡ drop (n + m) xs
drop-drop m zero xs = ap (λ k. drop k xs) (omega arith)
drop-drop m (suc n) [] = drop-nil m ∙ sym (drop-nil (suc n + m))
drop-drop m (suc n) (x ∷ xs) =
    drop-drop m n xs
    ∙ ap (λ k. drop k (x ∷ xs)) (let e : suc (n + m) ≡ suc n + m = omega arith in e)

get_elem?-past : {A : Type 0} (xs : List A) (i : ℕ) → length xs ≤ i → get_elem? xs i ≡ none
get_elem?-past [] i h = refl
get_elem?-past (x ∷ xs) zero h = absurd (omega arith)
get_elem?-past (x ∷ xs) (suc i) h = get_elem?-past xs i (omega arith)

pub group_end_lem :
    (kvs : List KeyValue) (key : String) (j left : ℕ)
    → length kvs ≤ j + left
    → group_end kvs key j left ≡ j + same_keys key (drop j kvs)
unfolding group_end
group_end_lem kvs key j zero enough =
    rw (get_elem?-drop-none kvs j (get_elem?-past kvs j (omega arith))) (omega arith)
group_end_lem kvs key j (suc left) enough = elim (Option-cases (get_elem? kvs j)) [
  | inl past ↦ rw (past, group_end) (rw (get_elem?-drop-none kvs j past) (omega arith))
  | inr (kv, here) ↦
      let rest = group_end_lem kvs key (j + 1) left (omega arith) in
      let next = drop_succ j kvs in
      rw (here, group_end) (rw (get_elem?-drop kvs j here) (ground (arith, rest, next)))
]

pub group_values_lem :
    (kvs : List KeyValue) (k n : ℕ)
    → k + n ≤ length kvs
    → group_values kvs k n ≡ some (values_of (take n (drop k kvs)))
unfolding group_values
group_values_lem kvs k zero fits = refl
group_values_lem kvs k (suc n) fits =
    let (kv, here) = get_elem?_of_lt kvs k (omega arith) in
    let rest = group_values_lem kvs (k + 1) n (omega arith) in
    let next = drop_succ k kvs in
    rw (here, group_values) (rw (get_elem?-drop kvs k here) (ground (arith, rest, next)))

pub same_keys_le : (key : String) (kvs : List KeyValue) → same_keys key kvs ≤ length kvs
same_keys_le key [] = omega arith
same_keys_le key (kv ∷ kvs) = ground (arith, same_keys_le key kvs)
