-- ===== src/Raft/Rfsrv/Leaders.antt =====
-- The checks of src/raft1/test.go on the states of the servers: a server that is not connected is `none`, a
-- connected one has what GetState returns, its term and whether it is a leader. The result `none` of
-- a check is Fatalf; the term -1 and the lack of a leader are none within the result.
pub mod Collected
pub mod Latest
pub mod Unique
use mit_6_5824_lab.Prelude.{
  ltb, ◌==◌, if◌then◌else◌, Bool-cases, length, is_some, lookup, insert, Dict, ℕ, ◌+◌, ◌≡◌, refl,
  inl, inr, Bool, true, false, not, Option, none, some, List, [], ◌∷◌, ◌++◌, arith, nat_eq,
}

abbrev pub Seen : Type 0
Seen = Option (ℕ × Bool)

-- leaders[term] = append(leaders[term], i)
unfoldable pub add_leader : ℕ → ℕ → Dict ℕ (List ℕ) → Dict ℕ (List ℕ)
add_leader term i leaders =
    insert term (elim (lookup term leaders) [ none ↦ [] | some is ↦ is ] ++ i ∷ []) leaders

-- The first inner loop of checkOneLeader, from server `i` on.
unfoldable pub collect_leaders : ℕ → List Seen → Dict ℕ (List ℕ) → Dict ℕ (List ℕ)
unfolding add_leader
collect_leaders i [] leaders = leaders
collect_leaders i (none ∷ seen) leaders = collect_leaders (i + 1) seen leaders
collect_leaders i (some (term, leader) ∷ seen) leaders =
    collect_leaders (i + 1) seen (if leader then add_leader term i leaders else leaders)

-- The second: `last` is lastTermWithLeader.
unfoldable pub last_term : Option ℕ → Dict ℕ (List ℕ) → Option (Option ℕ)
last_term last [] = some last
last_term last ((term, is) ∷ leaders) =
    let rest =
      last_term (some (elim last [ none ↦ term | some t ↦ if ltb t term then term else t ]))
        leaders in
    if ltb 1 (length is) then none else rest

-- One round of checkOneLeader: `some none` is a round without a leader.
unfoldable pub leader_round : List Seen → Option (Option ℕ)
unfolding collect_leaders last_term
leader_round seen =
    let leaders = collect_leaders 0 seen [] in
    elim (last_term none leaders) [
      | none ↦ none
      | some none ↦ some none
      | some (some t) ↦ elim (lookup t leaders) [
        | none ↦ none
        | some [] ↦ none
        | some (i ∷ _) ↦ some (some i)
      ]
    ]

-- checkOneLeader, with what is seen in each of its rounds
unfoldable pub check_one_leader : List (List Seen) → Option ℕ
unfolding leader_round
check_one_leader [] = none
check_one_leader (seen ∷ rounds) =
    let rest = check_one_leader rounds in
    elim (leader_round seen) [ none ↦ none | some none ↦ rest | some (some i) ↦ some i ]

-- checkTerms
unfoldable pub check_terms : Option ℕ → List Seen → Option (Option ℕ)
check_terms term [] = some term
check_terms term (none ∷ seen) = check_terms term seen
check_terms none (some (xterm, _) ∷ seen) = check_terms (some xterm) seen
check_terms (some term) (some (xterm, _) ∷ seen) =
    let rest = check_terms (some term) seen in if not (term == xterm) then none else rest

-- checkNoLeader: whether it passes.
unfoldable pub check_no_leader : List Seen → Bool
check_no_leader [] = true
check_no_leader (none ∷ seen) = check_no_leader seen
check_no_leader (some (_, leader) ∷ seen) =
    let rest = check_no_leader seen in if leader then false else rest

-- All connected servers have this term; `none` only if no server is connected.
abbrev pub AllAt : Option ℕ → List Seen → Type 0
AllAt r [] = Unit
AllAt r (none ∷ seen) = AllAt r seen
AllAt r (some (t, _) ∷ seen) = (r ≡ some t) × AllAt r seen

check_terms-some :
    (term : ℕ) (seen : List Seen) (r : Option ℕ)
    → check_terms (some term) seen ≡ some r
    → (r ≡ some term) × AllAt r seen
unfolding check_terms
check_terms-some term [] r h = ground arith
check_terms-some term (none ∷ seen) r h = check_terms-some term seen r h
check_terms-some term (some (xterm, l) ∷ seen) r h = elim (Bool-cases (term == xterm)) [
  | inl alike ↦
      let (same, all) = check_terms-some term seen r (ground arith) in (same, (ground arith, all))
  | inr differ ↦ absurd (ground arith)
]

check_terms_complete :
    (term : ℕ) (seen : List Seen)
    → AllAt (some term) seen
    → check_terms (some term) seen ≡ some (some term)
unfolding check_terms
check_terms_complete term [] h = refl
check_terms_complete term (none ∷ seen) h = check_terms_complete term seen h
check_terms_complete term (some (xterm, l) ∷ seen) h =
    ground (arith, check_terms_complete term seen h.1)

-- Some connected server has a term.
abbrev pub any_seen : List Seen → Bool
any_seen [] = false
any_seen (none ∷ seen) = any_seen seen
any_seen (some _ ∷ seen) = true

-- checkTerms passes exactly if there is a term that all connected servers have. It returns that term,
-- and -1 exactly if no server is connected.
pub check_terms_lem :
    (seen : List Seen)
    → ((r : Option ℕ) → check_terms none seen ≡ some r → AllAt r seen × (is_some r ≡ any_seen seen))
      × ((t : ℕ)
          → AllAt (some t) seen
          → any_seen seen ≡ true
          → check_terms none seen ≡ some (some t))
      × (any_seen seen ≡ false → check_terms none seen ≡ some none)
unfolding check_terms
check_terms_lem [] = (λ r h. ground arith, λ t h p. cc, λ p. refl)
check_terms_lem (none ∷ seen) = check_terms_lem seen
check_terms_lem (some (xterm, l) ∷ seen) = (
  λ r h. let (same, all) = check_terms-some xterm seen r h in (ground arith, ground arith),
  λ t h p. let e = h.0 in ground (arith, check_terms_complete t seen h.1),
  λ p. cc,
)
