-- ===== src/Raft/Rfsrv/Leaders/Latest.antt =====
-- The last term with a leader that checkOneLeader of src/raft1/test.go finds.
use mit_6_5824_lab.Prelude.{
  ltb, ◌==◌, if◌then◌else◌, ==_iff, Bool-cases, length, lookup, Dict, ℕ, ◌≤◌, ◌≡◌, refl, sym, ap,
  ◌∙◌, ◌⊎◌, inl, inr, Option, none, some, List, [], ◌∷◌, arith, nat_eq,
}
use mit_6_5824_lab.Raft.Rfsrv.Leaders.{last_term}

-- lastTermWithLeader after one round of the second loop
abbrev later : Option ℕ → ℕ → ℕ
later none k = k
later (some t) k = if ltb t k then k else t

later_lem :
    (last : Option ℕ) (k : ℕ)
    → (k ≤ later last k)
      × ((u : ℕ) → last ≡ some u → u ≤ later last k)
      × ((later last k ≡ k) ⊎ (last ≡ some (later last k)))
later_lem none k = (omega arith, λ u e. absurd cc, inl refl)
later_lem (some t) k = elim (Bool-cases (ltb t k)) [
  | inl e ↦ (ground arith, λ u f. ground arith, inl (ground arith))
  | inr e ↦ (ground arith, λ u f. ground arith, inr (ground arith))
]

last_term_step :
    (last : Option ℕ) (k : ℕ) (ks : List ℕ) (leaders : Dict ℕ (List ℕ)) (r : Option ℕ)
    → last_term last ((k, ks) ∷ leaders) ≡ some r
    → (length ks ≤ 1) × (last_term (some (later last k)) leaders ≡ some r)
unfolding last_term
last_term_step none k ks leaders r h = (ground arith, ground arith)
last_term_step (some t) k ks leaders r h = (ground arith, ground arith)

-- The second loop: its result is the last term or a term of the map, and no earlier than them all; no list is
-- longer than one.
abbrev Largest : Option ℕ → Dict ℕ (List ℕ) → Option ℕ → Type 0
Largest last leaders r =
    ((r ≡ last) ⊎ ((t : ℕ) × (is : List ℕ) × (r ≡ some t) × (lookup t leaders ≡ some is)))
    × ((u : ℕ) → last ≡ some u → (t : ℕ) × (r ≡ some t) × (u ≤ t))
    × ((u : ℕ) (is : List ℕ)
        → lookup u leaders ≡ some is
        → (length is ≤ 1) × (t : ℕ) × (r ≡ some t) × (u ≤ t))

pub last_term_lem :
    (last : Option ℕ) (leaders : Dict ℕ (List ℕ)) (r : Option ℕ)
    → last_term last leaders ≡ some r
    → Largest last leaders r
unfolding lookup last_term
last_term_lem last [] r h =
    let same : r ≡ last = cc in (inl same, λ u e. (u, same ∙ e, omega arith), λ u is e. absurd cc)
last_term_lem last ((k, ks) ∷ leaders) r h =
    let (short, h') = last_term_step last k ks leaders r h in
    let (from, least, all) = last_term_lem (some (later last k)) leaders r h' in
    let (ge, ge_last, either) = later_lem last k in
    let (t, is_t, le) = least (later last k) refl in
    (
      elim from [
        | inl e ↦ elim either [
          | inl m ↦ inr (k, ks, e ∙ ap some m, rw ((==_iff k k).1 refl) refl)
          | inr l ↦ inl (e ∙ sym l)
        ]
        | inr (x, is, ex, lx) ↦ elim (Bool-cases (k == x)) [
          | inl f ↦ inr (x, ks, ex, rw f refl)
          | inr f ↦ inr (x, is, ex, rw f lx)
        ]
      ],
      λ u e. (t, is_t, omega (arith, ge_last u e)),
      λ u is e. elim (Bool-cases (k == u)) [
        | inl f ↦
            let same : is ≡ ks = cc in
            (rw same short, t, is_t, omega (arith, ge, le, (==_iff k u).0 f))
        | inr f ↦ all u is (rw f at e)
      ],
    )
