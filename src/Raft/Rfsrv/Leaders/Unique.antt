-- ===== src/Raft/Rfsrv/Leaders/Unique.antt =====
-- The server that checkOneLeader of src/raft1/test.go returns.
use mit_6_5824_lab.Raft.Rfsrv.Leaders.Collected.{
  leaders_of, In, leaders_of_sound, leaders_of_complete, lookup-collected, has_lookup,
}
use mit_6_5824_lab.Raft.Rfsrv.Leaders.Latest.{last_term_lem}
use mathlib.Core.Path.{subst}
use mit_6_5824_lab.Prelude.{
  ltb, Bool-cases, Option-cases, length, get_elem?, lookup, ℕ, suc, ◌≤◌, ◌<◌, ◌≡◌, refl, ap, ◌∙◌,
  ◌⊎◌, inl, inr, true, Option, none, some, List, [], ◌∷◌, arith, nat_eq,
}
use mit_6_5824_lab.Raft.Rfsrv.Leaders.{
  Seen, collect_leaders, last_term, leader_round, check_one_leader,
}

-- Server `i` is seen as a leader, and every other leader that is seen is one of an earlier term.
pub record SoleLeader (i : ℕ) (seen : List Seen) : Type 0 where
  pub term : ℕ
  pub leads : get_elem? seen i ≡ some (some (term, true))
  pub others :
      (j t : ℕ) → get_elem? seen j ≡ some (some (t, true)) → (t < term) ⊎ ((t ≡ term) × (j ≡ i))

lt_or_eq : (a b : ℕ) → a ≤ b → (a < b) ⊎ (a ≡ b)
lt_or_eq a b le = elim (Bool-cases (ltb a b)) [
  | inl e ↦ inl (ground arith)
  | inr e ↦ inr (ground arith)
]

first_of :
    (o : Option (List ℕ)) (i : ℕ)
    → elim o [ none ↦ none | some [] ↦ none | some (x ∷ _) ↦ some (some x) ] ≡ some (some i)
    → (is : List ℕ) × (o ≡ some (i ∷ is))
first_of none i h = absurd cc
first_of (some []) i h = absurd cc
first_of (some (x ∷ xs)) i h = (xs, cc)

short_In : (i j : ℕ) (is : List ℕ) → length (i ∷ is) ≤ 1 → In j (i ∷ is) → j ≡ i
short_In i j [] le (inl e) = e
short_In i j [] le (inr h) = elim h [ ]
short_In i j (x ∷ is) le h = absurd (omega arith)

sole :
    (seen : List Seen) (i t : ℕ) (is : List ℕ)
    → last_term none (collect_leaders 0 seen []) ≡ some (some t)
    → lookup t (collect_leaders 0 seen []) ≡ some (i ∷ is)
    → SoleLeader i seen
sole seen i t is e l =
    let leaders = collect_leaders 0 seen [] in
    let (from, least, all) = last_term_lem none leaders (some t) e in
    let listed = lookup-collected t seen (i ∷ is) l in
    let (m, same, at) = leaders_of_sound t 0 i seen (rw listed (inl refl)) in
    let short = (all t (i ∷ is) l).0 in
    let is_m : i ≡ m = omega arith in
    record {
      term = t;
      leads = rw is_m at;
      others = λ j u there.
          let within = leaders_of_complete u 0 j j seen (omega arith) there in
          let (le1, t', is_t', le) = all u (leaders_of u 0 seen) (has_lookup u j seen within) in
          let t_t' : t ≡ t' = cc in
          elim (lt_or_eq u t (omega (arith, t_t'))) [
            | inl lt ↦ inl lt
            | inr now ↦ inr (
              now,
              short_In i j is short
                  (subst (λ xs. In j xs) (ap (λ x. leaders_of x 0 seen) now ∙ listed) within),
            )
          ];
    }

leader_round-SoleLeader :
    (seen : List Seen) (i : ℕ) → leader_round seen ≡ some (some i) → SoleLeader i seen
unfolding leader_round
leader_round-SoleLeader seen i h =
    let leaders = collect_leaders 0 seen [] in
    elim (Option-cases (last_term none leaders)) [
      | inl e ↦ absurd (ground (arith, e))
      | inr (r, e) ↦ elim (Option-cases r) [
        | inl nobody ↦ absurd (ground (arith, e, nobody))
        | inr (t, is_t) ↦
            let (is, l) = first_of (lookup t leaders) i (ground (arith, e, is_t)) in
            sole seen i t is (e ∙ ap some is_t) l
      ]
    ]

-- If checkOneLeader returns a server, there is a round in which it is seen as a leader and every other leader is one
-- of an earlier term.
pub check_one_leader-SoleLeader :
    (rounds : List (List Seen)) (i : ℕ)
    → check_one_leader rounds ≡ some i
    → (n : ℕ) × (seen : List Seen) × (get_elem? rounds n ≡ some seen) × SoleLeader i seen
unfolding check_one_leader
check_one_leader-SoleLeader [] i h = absurd cc
check_one_leader-SoleLeader (seen ∷ rounds) i h = elim (Option-cases (leader_round seen)) [
  | inl e ↦ absurd (ground (arith, e))
  | inr (o, e) ↦ elim (Option-cases o) [
    | inl nobody ↦
        let (n, later_seen, at, sole_leader) =
          check_one_leader-SoleLeader rounds i (ground (arith, e, nobody)) in
        (suc n, later_seen, at, sole_leader)
    | inr (x, is_x) ↦
        let same : x ≡ i = ground (arith, e, is_x) in
        (0, seen, refl, leader_round-SoleLeader seen i (ground (arith, e, is_x, same)))
  ]
]
