-- ===== src/Raft/Rfsrv/Counting.antt =====
-- What nCommitted of src/raft1/test.go counts in logs that the checks have let pass.
use native.Mathlib.Nat.{zero-add}
use mit_6_5824_lab.Prelude.{
  ◌==◌, if◌then◌else◌, Option-cases, get_elem?, ℕ, zero, suc, ◌+◌, ◌<◌, ◌≡◌, refl, ap, ◌∙◌, inl,
  inr, false, none, some, List, [], ◌∷◌, arith,
}
use mit_6_5824_lab.Raft.Rfsrv.{
  Any, Rfsrv, ApplyMsg, Test, logs_at, make_test, committed_loop, n_committed,
}
use mit_6_5824_lab.Raft.Rfsrv.Agreement.{
  same_any_refl, make_test-Agrees, apply_all, apply_all-Agrees,
}

-- The servers that have an entry at the index.
unfoldable pub holders : ℕ → List Rfsrv → ℕ
unfolding logs_at
holders index [] = 0
holders index (rs ∷ srvs) = elim (logs_at index rs) [ none ↦ 0 | some _ ↦ 1 ] + holders index srvs

-- The value of the first of them; nil if there is none.
unfoldable pub first_value : ℕ → List Rfsrv → Any
unfolding logs_at
first_value index [] = none
first_value index (rs ∷ srvs) =
    let rest = first_value index srvs in elim (logs_at index rs) [ none ↦ rest | some v ↦ v ]

holders_pos :
    (index : ℕ) (srvs : List Rfsrv) (i : ℕ) (a : Rfsrv) (v : Any)
    → get_elem? srvs i ≡ some a
    → logs_at index a ≡ some v
    → 0 < holders index srvs
unfolding holders
holders_pos index [] i a v there held = cc
holders_pos index (rs ∷ srvs) zero a v there held = ground arith
holders_pos index (rs ∷ srvs) (suc i) a v there held =
    omega (arith, holders_pos index srvs i a v there held)

first_value_held :
    (index : ℕ) (srvs : List Rfsrv)
    → 0 < holders index srvs
    → (j : ℕ) × (b : Rfsrv) × (get_elem? srvs j ≡ some b)
      × (logs_at index b ≡ some (first_value index srvs))
unfolding first_value holders
first_value_held index [] h = absurd (omega arith)
first_value_held index (rs ∷ srvs) h = elim (Option-cases (logs_at index rs)) [
  | inr (w, e) ↦ (zero, rs, refl, ground arith)
  | inl missing ↦
      let (j, b, there, held) = first_value_held index srvs (ground arith) in
      (suc j, b, there, ground arith)
]

committed_loop_lem :
    (index count : ℕ) (cmd c : Any) (srvs : List Rfsrv)
    → ((j : ℕ) (a : Rfsrv) → get_elem? srvs j ≡ some a → a.apply_err ≡ false)
    → ((j : ℕ) (a : Rfsrv) (v : Any) → get_elem? srvs j ≡ some a → logs_at index a ≡ some v → v ≡ c)
    → (0 < count → cmd ≡ c)
    → committed_loop index count cmd srvs
      ≡ some (count + holders index srvs, (if 0 == holders index srvs then cmd else c))
unfolding committed_loop holders
committed_loop_lem index count cmd c [] quiet all first = ground arith
committed_loop_lem index count cmd c (rs ∷ srvs) quiet all first =
    let calm = quiet zero rs refl in
    elim (Option-cases (logs_at index rs)) [
      | inl missing ↦ ground (
        arith,
        committed_loop_lem index count cmd c srvs (λ j. quiet (suc j)) (λ j. all (suc j)) first,
      )
      | inr (v, e) ↦
          let is_c = all zero rs v refl e in
          ground (
            arith,
            first,
            same_any_refl c,
            committed_loop_lem index (count + 1) v c srvs (λ j. quiet (suc j)) (λ j. all (suc j))
                (λ p. is_c),
          )
    ]

-- In a test whose checks have let all messages pass, nCommitted never fails: it gives the number of the
-- servers that have an entry at the index, and if there is one, the value that all of them have.
pub n_committed_lem :
    (ms : List (ℕ × ApplyMsg)) (n index : ℕ) {ts : Test}
    → apply_all ms (make_test n) ≡ some ts
    → (cmd : Any) × (n_committed index ts ≡ some (holders index ts.srvs, cmd))
      × ((i : ℕ) (a : Rfsrv) (v : Any)
          → get_elem? ts.srvs i ≡ some a
          → logs_at index a ≡ some v
          → v ≡ cmd)
unfolding n_committed
n_committed_lem ms n index {ts} run =
    let h = apply_all-Agrees ms (make_test n) {ts' = ts} (make_test-Agrees n) run in
    let c = first_value index ts.srvs in
    let all : (i : ℕ) (a : Rfsrv) (v : Any)
        → get_elem? ts.srvs i ≡ some a
        → logs_at index a ≡ some v
        → v ≡ c =
      λ i a v there held.
        let (j, b, there', held') =
          first_value_held index ts.srvs (holders_pos index ts.srvs i a v there held) in
        h.same i j index a b v c there there' held held' in
    (
      (if 0 == holders index ts.srvs then none else c),
      committed_loop_lem index 0 none c ts.srvs h.quiet all (λ p. absurd (omega arith))
          ∙ ap (λ k. some (k, (if 0 == holders index ts.srvs then none else c)))
              (zero-add (holders index ts.srvs)),
      λ i a v there held.
          ground (arith, all i a v there held, holders_pos index ts.srvs i a v there held),
    )
