-- ===== src/Raft/Rfsrv/Leaders/Collected.antt =====
-- The map of leaders by term that checkOneLeader of src/raft1/test.go makes.
use mit_6_5824_lab.Prelude.{
  ◌==◌, if◌then◌else◌, ==_iff, Bool-cases, Option-cases, get_elem?, lookup, Dict, lookup-insert, ℕ,
  zero, suc, ◌+◌, ◌≡◌, refl, sym, ap, ◌∙◌, ◌⊎◌, inl, inr, true, false, ◌&&◌, Option, none, some,
  List, [], ◌∷◌, ◌++◌, arith, nat_eq,
}
use mit_6_5824_lab.Raft.Rfsrv.Leaders.{Seen, add_leader, collect_leaders}
use mathlib.Core.List.{append-nil, append_assoc}

-- The servers, from server `i` on, that are seen as leaders of term `t`.
abbrev pub leaders_of : ℕ → ℕ → List Seen → List ℕ
leaders_of t i [] = []
leaders_of t i (none ∷ seen) = leaders_of t (i + 1) seen
leaders_of t i (some (u, leader) ∷ seen) =
    let rest = leaders_of t (i + 1) seen in if leader && (u == t) then i ∷ rest else rest

-- A list in the map, extended.
abbrev pub extend : Option (List ℕ) → List ℕ → Option (List ℕ)
extend none [] = none
extend none (x ∷ xs) = some (x ∷ xs)
extend (some ys) xs = some (ys ++ xs)

added :
    (t i : ℕ) (leaders : Dict ℕ (List ℕ)) (u : ℕ)
    → u == t ≡ true
    → lookup t (add_leader u i leaders) ≡ extend (lookup t leaders) (i ∷ [])
unfolding add_leader
added t i leaders u e =
    let same : u ≡ t = (==_iff u t).0 e in
    rw (lookup-insert u t (elim (lookup u leaders) [ none ↦ [] | some is ↦ is ] ++ i ∷ []) leaders)
      (rw e (
        rw same (elim (Option-cases (lookup t leaders)) [
          | inl o ↦ ground (arith, o)
          | inr (is, o) ↦ ground (arith, o)
        ])))

lookup-add_leader :
    (u i t : ℕ) (leaders : Dict ℕ (List ℕ))
    → lookup t (add_leader u i leaders)
      ≡ (if u == t then extend (lookup t leaders) (i ∷ []) else lookup t leaders)
unfolding add_leader
lookup-add_leader u i t leaders = elim (Bool-cases (u == t)) [
  | inl e ↦ rw e (added t i leaders u e)
  | inr e ↦ rw e (
      rw
        (lookup-insert u t (elim (lookup u leaders) [ none ↦ [] | some is ↦ is ] ++ i ∷ []) leaders)
        (rw e refl))
]

extend_twice :
    (o : Option (List ℕ)) (i : ℕ) (rest : List ℕ)
    → extend (extend o (i ∷ [])) rest ≡ extend o (i ∷ rest)
extend_twice none i rest = refl
extend_twice (some ys) i rest = ap some (append_assoc ys (i ∷ []) rest)

extend_none : (o : Option (List ℕ)) → extend o [] ≡ o
extend_none none = refl
extend_none (some ys) = ap some (append-nil ys)

pub lookup-collect_leaders :
    (t i : ℕ) (seen : List Seen) (leaders : Dict ℕ (List ℕ))
    → lookup t (collect_leaders i seen leaders) ≡ extend (lookup t leaders) (leaders_of t i seen)
unfolding collect_leaders
lookup-collect_leaders t i [] leaders = sym (extend_none (lookup t leaders))
lookup-collect_leaders t i (none ∷ seen) leaders = lookup-collect_leaders t (i + 1) seen leaders
lookup-collect_leaders t i (some (u, false) ∷ seen) leaders =
    lookup-collect_leaders t (i + 1) seen leaders
lookup-collect_leaders t i (some (u, true) ∷ seen) leaders =
    lookup-collect_leaders t (i + 1) seen (add_leader u i leaders)
    ∙ rw (lookup-add_leader u i t leaders) (elim (Bool-cases (u == t)) [
      | inl e ↦ rw e (extend_twice (lookup t leaders) i (leaders_of t (i + 1) seen))
      | inr e ↦ rw e refl
    ])

abbrev pub In : ℕ → List ℕ → Type 0
In j [] = ⊥
In j (x ∷ xs) = (j ≡ x) ⊎ In j xs

-- Those servers are the leaders of the term.
pub leaders_of_sound :
    (t i j : ℕ) (seen : List Seen)
    → In j (leaders_of t i seen)
    → (m : ℕ) × (j ≡ i + m) × (get_elem? seen m ≡ some (some (t, true)))
leaders_of_sound t i j [] h = elim h [ ]
leaders_of_sound t i j (none ∷ seen) h =
    let (m, e, at) = leaders_of_sound t (i + 1) j seen h in (suc m, omega arith, at)
leaders_of_sound t i j (some (u, false) ∷ seen) h =
    let (m, e, at) = leaders_of_sound t (i + 1) j seen h in (suc m, omega arith, at)
leaders_of_sound t i j (some (u, true) ∷ seen) h = elim (Bool-cases (u == t)) [
  | inl e ↦ elim (rw e at h) [
    | inl here ↦ (0, omega arith, ground (arith, (==_iff u t).0 e))
    | inr there ↦
        let (m, f, at) = leaders_of_sound t (i + 1) j seen there in (suc m, omega arith, at)
  ]
  | inr e ↦
      let (m, f, at) = leaders_of_sound t (i + 1) j seen (rw e at h) in (suc m, omega arith, at)
]

pub leaders_of_complete :
    (t i j k : ℕ) (seen : List Seen)
    → k ≡ i + j
    → get_elem? seen j ≡ some (some (t, true))
    → In k (leaders_of t i seen)
leaders_of_complete t i j k [] e h = absurd cc
leaders_of_complete t i zero k (none ∷ seen) e h = absurd cc
leaders_of_complete t i zero k (some (u, leader) ∷ seen) e h =
    let same : u ≡ t = ground arith in
    let leads : leader ≡ true = ground arith in rw (leads, (==_iff u t).1 same) (inl (omega arith))
leaders_of_complete t i (suc j) k (none ∷ seen) e h =
    leaders_of_complete t (i + 1) j k seen (omega arith) h
leaders_of_complete t i (suc j) k (some (u, leader) ∷ seen) e h =
    let rest = leaders_of_complete t (i + 1) j k seen (omega arith) h in
    elim (Bool-cases (leader && (u == t))) [ inl f ↦ rw f (inr rest) | inr f ↦ rw f rest ]

-- The map after the first loop holds the leaders of each term.
pub lookup-collected :
    (t : ℕ) (seen : List Seen) (is : List ℕ)
    → lookup t (collect_leaders 0 seen []) ≡ some is
    → leaders_of t 0 seen ≡ is
unfolding lookup
lookup-collected t seen is h =
    extended (leaders_of t 0 seen) is (sym (lookup-collect_leaders t 0 seen []) ∙ h)
  where
    extended : (xs ys : List ℕ) → extend none xs ≡ some ys → xs ≡ ys
    extended [] ys e = absurd cc
    extended (x ∷ xs) ys e = cc

pub has_lookup :
    (t j : ℕ) (seen : List Seen)
    → In j (leaders_of t 0 seen)
    → lookup t (collect_leaders 0 seen []) ≡ some (leaders_of t 0 seen)
unfolding lookup
has_lookup t j seen h = lookup-collect_leaders t 0 seen [] ∙ extended (leaders_of t 0 seen) h
  where
    extended : (xs : List ℕ) → In j xs → extend none xs ≡ some xs
    extended [] h = elim h [ ]
    extended (x ∷ xs) h = refl
