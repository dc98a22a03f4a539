-- ===== src/Mr/Sequential/Groups.antt =====
-- What src/main/mrsequential.go puts out: one line for each key.
use mit_6_5824_lab.Prelude.{
  ltb, if◌then◌else◌, Bool-cases, Option-cases, length, get_elem?, take, drop, length-drop,
  lt_of_get_elem?, lookup, ℕ, zero, suc, ◌+◌, ◌-◌, ◌≤◌, ◌<◌, String, ◌≡◌, refl, sym, ap, ◌∙◌, inl,
  inr, true, false, Option, none, some, List, [], ◌∷◌, map, arith, str_eq, eq_iff, string_eq,
}
use mit_6_5824_lab.Mr.Worker.{KeyValue}
use mit_6_5824_lab.Mr.Sequential.{str_less, less, group_end, group_values, group_loop}
use mit_6_5824_lab.Mr.Sequential.Runs.{
  add_run, runs_of, same_keys, values_of, runs_of-cons, get_elem?-drop, get_elem?-drop-none,
  drop_succ, drop-drop, group_end_lem, group_values_lem, same_keys_le,
}
use mathlib.Core.Option
use mathlib.Core.Path.{subst}
use Prim.Native.Char.{code}
use text.Mathlib.TextEquality.{codes_equal}
use text.Mathlib.TextPositions.{compare_self}

-- One line of the output for a run.
abbrev pub line : (String → List String → String) → String × List String → String × String
line reducef run = (run.0, reducef run.0 run.1)

-- The loop, from the index i on, puts out a line for each run. As much fuel as there are records left, and one, is
-- enough.
pub group_loop_lem :
    (reducef : String → List String → String) (kvs : List KeyValue) (i fuel : ℕ)
    → i ≤ length kvs
    → length kvs < i + fuel
    → group_loop reducef kvs i fuel ≡ some (map (line reducef) (runs_of (drop i kvs)))
unfolding group_loop
group_loop_lem reducef kvs i zero le enough = absurd (omega arith)
group_loop_lem reducef kvs i (suc fuel) le enough = elim (Option-cases (get_elem? kvs i)) [
  | inl past ↦ rw (past, group_loop) (rw (get_elem?-drop-none kvs i past) refl)
  | inr (kv, here) ↦
      let n = same_keys kv.key (drop (suc i) kvs) in
      let lt = lt_of_get_elem? kvs i here in
      let at_end : group_end kvs kv.key (i + 1) (length kvs - (i + 1)) ≡ i + 1 + n =
        group_end_lem kvs kv.key (i + 1) (length kvs - (i + 1)) (omega arith)
        ∙ ap (λ l. i + 1 + same_keys kv.key l) (drop_succ i kvs) in
      let bound : i + 1 + n ≤ length kvs =
        omega (arith, same_keys_le kv.key (drop (suc i) kvs), length-drop (suc i) kvs) in
      let size : i + 1 + n - i ≡ suc n = omega arith in
      let values : group_values kvs i (suc n)
          ≡ some (kv.value ∷ values_of (take n (drop (suc i) kvs))) =
        group_values_lem kvs i (suc n) (omega arith)
        ∙ ap (λ l. some (values_of (take (suc n) l))) (get_elem?-drop kvs i here) in
      let lines = group_loop_lem reducef kvs (i + 1 + n) fuel bound (omega arith) in
      let later : drop (i + 1 + n) kvs ≡ drop n (drop (suc i) kvs) =
        sym (drop-drop n (i + 1) kvs) ∙ ap (drop n) (drop_succ i kvs) in
      let shown = get_elem?-drop kvs i here in
      rw (here, group_loop)
        (rw at_end (
          rw size (
            rw values
              (rw lines (rw later (rw shown (rw (runs_of-cons kv (drop (suc i) kvs)) refl)))))))
]

-- The values of the records with a key.
abbrev pub values_for : String → List KeyValue → List String
values_for key [] = []
values_for key (kv ∷ kvs) =
    if str_eq kv.key key then kv.value ∷ values_for key kvs else values_for key kvs

-- As sort.Sort leaves the records: none is less than one before it.
abbrev pub AllFrom : KeyValue → List KeyValue → Type 0
AllFrom x [] = Unit
AllFrom x (y ∷ ys) = (less y x ≡ false) × AllFrom x ys

abbrev pub Ascending : List KeyValue → Type 0
Ascending [] = Unit
Ascending (x ∷ xs) = AllFrom x xs × Ascending xs

str_less_connected : (s t : String) → str_less s t ≡ false → str_less t s ≡ false → s ≡ t
str_less_connected String.[] String.[] g h = refl
str_less_connected String.[] (String.◌∷◌ d t) g h = cc
str_less_connected (String.◌∷◌ c s) String.[] g h = cc
str_less_connected (String.◌∷◌ c s) (String.◌∷◌ d t) g h =
    elim (Bool-cases (ltb (code c) (code d))) [
      | inl lt ↦ absurd (ground (arith, g, lt))
      | inr ge ↦ elim (Bool-cases (ltb (code d) (code c))) [
        | inl gt ↦ absurd (ground (arith, h, gt))
        | inr le ↦
            let same : code c ≡ code d = ground (arith, ge, le) in
            let chars : c ≡ d = codes_equal c d (rw same (compare_self (code d))) in
            let rest : s ≡ t =
              str_less_connected s t (ground (arith, g, ge, le)) (ground (arith, h, ge, le)) in
            cc
      ]
    ]

abbrev pub found : List String → Option (List String)
found [] = none
found (v ∷ vs) = some (v ∷ vs)

-- A key that is not that of the next record does not come later.
absent :
    (key : String) (x : KeyValue) (ys : List KeyValue)
    → str_less x.key key ≡ false
    → str_eq x.key key ≡ false
    → AllFrom x ys
    → values_for key ys ≡ []
unfolding less
absent key x [] after other all = refl
absent key x (y ∷ ys) after other all = elim (Bool-cases (str_eq y.key key)) [
  | inl same ↦
      let e = (eq_iff y.key key).0 same in
      let before : str_less key x.key ≡ false = rw (sym e) all.0 in
      let equal = str_less_connected x.key key after before in
      absurd (ground (arith, (eq_iff x.key key).1 equal, other))
  | inr differs ↦ rw differs (absent key x ys after other all.1)
]

found-inv : (us : List String) {vs : List String} → found us ≡ some vs → us ≡ vs
found-inv [] h = cc
found-inv (u ∷ us) h = cc

-- A record joins the first run, or begins one of its own.
lookup-add_run :
    (w : String) (kv : KeyValue) (k : String) (vs : List String)
    (runs : List (String × List String)) (us : List String)
    → lookup w ((k, vs) ∷ runs) ≡ found us
    → (str_eq k kv.key ≡ false → str_eq kv.key w ≡ true → us ≡ [])
    → lookup w (add_run kv ((k, vs) ∷ runs)) ≡ found (if str_eq kv.key w then kv.value ∷ us else us)
unfolding lookup
lookup-add_run w kv k vs runs us there new = elim (Bool-cases (str_eq k kv.key)) [
  | inl same ↦
      let e = (eq_iff k kv.key).0 same in
      elim (Bool-cases (str_eq kv.key w)) [
        | inl here ↦
            let head : found us ≡ some vs = sym there ∙ (rw e (rw here refl)) in
            let equal = found-inv us head in
            rw same (rw e (rw here (ap (λ l. some (kv.value ∷ l)) (sym equal))))
        | inr away ↦ rw same (rw e (rw away (sym (sym there ∙ (rw e (rw away refl))) ∙ refl)))
      ]
  | inr other ↦ elim (Bool-cases (str_eq kv.key w)) [
    | inl here ↦ rw other (rw here (ap (λ l. some (kv.value ∷ l)) (sym (new other here))))
    | inr away ↦ rw other (rw away there)
  ]
]

-- The runs have each key once, with the values of all its records.
pub runs_of-lookup :
    (w : String) (kvs : List KeyValue)
    → Ascending kvs
    → lookup w (runs_of kvs) ≡ found (values_for w kvs)
unfolding lookup less
runs_of-lookup w [] sorted = refl
runs_of-lookup w (kv ∷ []) sorted = ground arith
runs_of-lookup w (kv ∷ (x ∷ xs)) sorted =
    let first = runs_of-cons x xs in
    let there = sym (ap (lookup w) first) ∙ runs_of-lookup w (x ∷ xs) sorted.1 in
    ap (λ runs. lookup w (add_run kv runs)) first
    ∙ lookup-add_run w kv x.key _ _ (values_for w (x ∷ xs)) there (λ other here.
      let e = (eq_iff kv.key w).0 here in
      ap (λ u. values_for u (x ∷ xs)) (sym e)
      ∙ (rw other (absent kv.key x xs sorted.0.0 other sorted.1.0)))

pub lookup-line :
    (reducef : String → List String → String) (w : String) (runs : List (String × List String))
    → lookup w (map (line reducef) runs) ≡ Option.map (reducef w) (lookup w runs)
unfolding lookup
lookup-line reducef w [] = refl
lookup-line reducef w (run ∷ runs) = elim (Bool-cases (str_eq run.0 w)) [
  | inl same ↦ let e = (eq_iff run.0 w).0 same in rw same (rw e refl)
  | inr other ↦ rw other (lookup-line reducef w runs)
]

-- No two lines have the same key.
abbrev pub Once : {V : Type 0} → List (String × V) → Type 0
Once [] = Unit
Once ((k, v) ∷ m) = (lookup k m ≡ none) × Once m

add_run-Once :
    (kv : KeyValue) (k : String) (vs : List String) (runs : List (String × List String))
    → Once ((k, vs) ∷ runs)
    → (str_eq k kv.key ≡ false → lookup kv.key ((k, vs) ∷ runs) ≡ none)
    → Once (add_run kv ((k, vs) ∷ runs))
add_run-Once kv k vs runs once new = elim (Bool-cases (str_eq k kv.key)) [
  | inl same ↦ rw same once
  | inr other ↦ rw other (new other, once)
]

pub runs_of-Once : (kvs : List KeyValue) → Ascending kvs → Once (runs_of kvs)
unfolding lookup less
runs_of-Once [] sorted = tt
runs_of-Once (kv ∷ []) sorted = (refl, tt)
runs_of-Once (kv ∷ (x ∷ xs)) sorted =
    let first = runs_of-cons x xs in
    let rest = runs_of-Once (x ∷ xs) sorted.1 in
    subst (λ runs. Once (add_run kv runs)) (sym first)
      (add_run-Once kv x.key _ _ (subst Once first rest) (λ other.
        sym (ap (lookup kv.key) first)
        ∙ runs_of-lookup kv.key (x ∷ xs) sorted.1
        ∙ (rw other (ap found (absent kv.key x xs sorted.0.0 other sorted.1.0)))))

pub line-Once :
    (reducef : String → List String → String) (runs : List (String × List String))
    → Once runs
    → Once (map (line reducef) runs)
line-Once reducef [] once = tt
line-Once reducef ((k, vs) ∷ runs) once =
    (lookup-line reducef k runs ∙ ap (Option.map (reducef k)) once.0, line-Once reducef runs once.1)
