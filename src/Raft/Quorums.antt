-- ===== src/Raft/Quorums.antt =====
-- The votes of a cluster of peers of src/raft1/raft.go.
use mit_6_5824_lab.Prelude.{
  ◌==◌, if◌then◌else◌, Bool-cases, length, get_elem?, ℕ, suc, ◌+◌, ◌*◌, ◌≤◌, ◌<◌, ◌≡◌, refl, sym,
  ◌≢◌, inl, inr, Bool, true, false, ◌&&◌, ◌||◌, some, List, [], ◌∷◌, arith,
}
use mit_6_5824_lab.Raft.Peer.{Raft}
use mit_6_5824_lab.Raft.Votes.{Vote, Run, Run-one_vote}

-- A peer's run, from its start, with the votes that it casts.
pub record History : Type 0 where
  pub first : Raft
  pub votes : List Vote
  pub last : Raft
  pub run : Run first votes last

-- Whether a peer has voted for the candidate `c` in the term `t`.
abbrev pub voted : ℕ → ℕ → List Vote → Bool
voted t c [] = false
voted t c (v ∷ vs) = ((v.0 == t) && (v.1 == c)) || voted t c vs

-- The number of peers that have.
abbrev pub votes_for : ℕ → ℕ → List History → ℕ
votes_for t c [] = 0
votes_for t c (h ∷ hs) = if voted t c h.votes then votes_for t c hs + 1 else votes_for t c hs

voted-get :
    (t c : ℕ) (vs : List Vote) → voted t c vs ≡ true → (i : ℕ) × (get_elem? vs i ≡ some (t, c))
voted-get t c [] h = cc
voted-get t c ((u, d) ∷ vs) h = elim (Bool-cases ((u == t) && (d == c))) [
  | inl same ↦ let e : u ≡ t = ground arith in let f : d ≡ c = ground arith in (0, rw e (rw f refl))
  | inr other ↦ let (i, at) = voted-get t c vs (ground (arith, h)) in (suc i, at)
]

-- A peer has voted for one of two candidates at most.
one_candidate :
    (t c d : ℕ) (h : History) → voted t c h.votes ≡ true → voted t d h.votes ≡ true → c ≡ d
one_candidate t c d h for_c for_d =
    let (i, at) = voted-get t c h.votes for_c in
    let (j, there) = voted-get t d h.votes for_d in
    let same : i ≡ j = Run-one_vote h.run i j (t, c) (t, d) at there refl in
    let equal : get_elem? h.votes j ≡ some (t, c) = rw (sym same) at in cc

votes_for_sum :
    (t c d : ℕ) (hs : List History) → c ≢ d → votes_for t c hs + votes_for t d hs ≤ length hs
votes_for_sum t c d [] other = omega arith
votes_for_sum t c d (h ∷ hs) other =
    let rest = votes_for_sum t c d hs other in
    elim (Bool-cases (voted t c h.votes)) [
      | inl for_c ↦ elim (Bool-cases (voted t d h.votes)) [
        | inl for_d ↦ absurd (other (one_candidate t c d h for_c for_d))
        | inr not_d ↦ ground (arith, rest, for_c, not_d)
      ]
      | inr not_c ↦ ground (arith, rest, not_c)
    ]

-- In a cluster, in runs without restarts of the peers, whatever messages come, whenever timers fire and in whatever
-- order the steps of each peer come: at most one candidate has in a term the votes of more than half of the
-- peers, which they have put into `votedFor` by RequestVote or preElection.
pub quorums-meet :
    (hs : List History) (t c d : ℕ)
    → length hs < 2 * votes_for t c hs
    → length hs < 2 * votes_for t d hs
    → c ≡ d
quorums-meet hs t c d many_c many_d = elim (Bool-cases (c == d)) [
  | inl same ↦ ground arith
  | inr other ↦ absurd (let sum = votes_for_sum t c d hs (ground arith) in omega (arith, sum))
]
