-- ===== src/Raft/Votes.antt =====
-- The votes of a peer of src/raft1/raft.go.
use mit_6_5824_lab.Prelude.{
  if◌then◌else◌, get_elem?, ℕ, zero, suc, ◌+◌, ◌≤◌, ◌<◌, ◌≡◌, refl, ap, false, Option, none, some,
  List, [], ◌∷◌, ◌++◌, arith,
}
use mit_6_5824_lab.Raft.Peer.{
  Raft, RequestVoteArgs, RequestVoteReply, AppendEntriesArgs, AppendEntriesReply, append_entries,
  pre_election, receive_vote, request_vote, kill,
}

-- A peer's vote: the term and the candidate.
abbrev pub Vote : Type 0
Vote = ℕ × ℕ

-- The vote that RequestVote gives, read off its reply.
abbrev pub granted : RequestVoteArgs → RequestVoteReply → List Vote
granted args reply = if reply.vote_granted then (args.term, args.candidate_id) ∷ [] else []

abbrev pub fresh_vote_reply : RequestVoteReply
fresh_vote_reply = record { term = 0; vote_granted = false }

-- One step of a peer under its lock, at any time and with any message, and the vote that it puts into `votedFor`:
-- a handler, or preElection, which votes for the peer itself. What ticker does without the lock, its
-- tests and the making of arguments, only reads the state, so between the tests and preElection
-- any steps may come.
pub data Step (self : Raft) : List Vote → Raft → Type 0 where
  elects : (now : ℕ) → Step self ((self.curr_term + 1, self.me) ∷ []) (pre_election now self)
  requested :
      (now : ℕ) (args : RequestVoteArgs) {self' : Raft} {reply : RequestVoteReply}
      → request_vote now args fresh_vote_reply self ≡ some (self', reply)
      → Step self (granted args reply) self'
  appended :
      (now : ℕ) (args : AppendEntriesArgs) (reply : AppendEntriesReply)
      → Step self [] (append_entries now args reply self).0
  heard : (reply : Option RequestVoteReply) → Step self [] (receive_vote reply self)
  kills : Step self [] (kill self)

-- The votes of a run, the latest first.
pub data Run : Raft → List Vote → Raft → Type 0 where
  here : (self : Raft) → Run self [] self
  next :
      {self self' self'' : Raft} {vs ws : List Vote}
      → Run self vs self'
      → Step self' ws self''
      → Run self (ws ++ vs) self''

-- All votes are for terms below `t`.
abbrev Below : ℕ → List Vote → Type 0
Below t [] = Unit
Below t (v ∷ vs) = (v.0 < t) × Below t vs

-- Each vote is for a later term than all votes before it.
abbrev Rising : List Vote → Type 0
Rising [] = Unit
Rising (v ∷ vs) = Below v.0 vs × Rising vs

-- The votes of one step: at most one, for the new term, which it has raised.
abbrev Cast : Raft → Raft → List Vote → Type 0
Cast self self' [] = Unit
Cast self self' (v ∷ []) = (v.0 ≡ self'.curr_term) × (self.curr_term < self'.curr_term)
Cast self self' (_ ∷ _ ∷ _) = ⊥

pub Step-term :
    {self self' : Raft} {vs : List Vote}
    → Step self vs self'
    → (self.curr_term ≤ self'.curr_term) × Cast self self' vs
unfolding pre_election request_vote append_entries receive_vote kill
Step-term {self} (elects now) = ground arith
Step-term {self} (requested now args h) = ground arith
Step-term {self} (appended now args reply) = ground arith
Step-term {self} (heard none) = ground arith
Step-term {self} (heard (some reply)) = ground arith
Step-term {self} kills = ground arith

Below-weaken : (t u : ℕ) (vs : List Vote) → t ≤ u → Below t vs → Below u vs
Below-weaken t u [] le h = tt
Below-weaken t u (v ∷ vs) le h = (omega arith, Below-weaken t u vs le h.1)

Cast-Rising :
    (self self' : Raft) (ws vs : List Vote)
    → (self.curr_term ≤ self'.curr_term) × Cast self self' ws
    → Below (self.curr_term + 1) vs × Rising vs
    → Below (self'.curr_term + 1) (ws ++ vs) × Rising (ws ++ vs)
Cast-Rising self self' [] vs c h =
    (Below-weaken (self.curr_term + 1) (self'.curr_term + 1) vs (omega arith) h.0, h.1)
Cast-Rising self self' ((t, w) ∷ []) vs c h = (
  (omega arith, Below-weaken (self.curr_term + 1) (self'.curr_term + 1) vs (omega arith) h.0),
  (Below-weaken (self.curr_term + 1) t vs (omega arith) h.0, h.1),
)
Cast-Rising self self' (_ ∷ _ ∷ _) vs c h = absurd c.1

Run-Rising :
    {self self' : Raft} {vs : List Vote}
    → Run self vs self'
    → Below (self'.curr_term + 1) vs × Rising vs
Run-Rising (here self) = (tt, tt)
Run-Rising (next {self' = mid} {self'' = last} {vs = vs} {ws = ws} r s) =
    Cast-Rising mid last ws vs (Step-term s) (Run-Rising r)

Below-get :
    (t : ℕ) (vs : List Vote) (i : ℕ) (v : Vote) → Below t vs → get_elem? vs i ≡ some v → v.0 < t
Below-get t [] i v h e = cc
Below-get t (w ∷ vs) zero v h e = ground arith
Below-get t (w ∷ vs) (suc i) v h e = Below-get t vs i v h.1 e

Rising-get :
    (vs : List Vote) (i j : ℕ) (v w : Vote)
    → Rising vs
    → get_elem? vs i ≡ some v
    → get_elem? vs j ≡ some w
    → v.0 ≡ w.0
    → i ≡ j
Rising-get [] i j v w h e f g = cc
Rising-get (x ∷ vs) zero zero v w h e f g = refl
Rising-get (x ∷ vs) zero (suc j) v w h e f g = absurd (ground (arith, Below-get x.0 vs j w h.0 f))
Rising-get (x ∷ vs) (suc i) zero v w h e f g = absurd (ground (arith, Below-get x.0 vs i v h.0 e))
Rising-get (x ∷ vs) (suc i) (suc j) v w h e f g = ap suc (Rising-get vs i j v w h.1 e f g)

-- In any run of a peer, without a restart of it, whatever it receives and whenever its timer fires, and with
-- ticker's steps and the handlers in any order: no two of the votes that it puts into `votedFor`, when it grants
-- one to a candidate or begins its own election, are for one term.
pub Run-one_vote :
    {self self' : Raft} {vs : List Vote}
    → Run self vs self'
    → (i j : ℕ) (v w : Vote) → get_elem? vs i ≡ some v
    → get_elem? vs j ≡ some w
    → v.0 ≡ w.0
    → i ≡ j
Run-one_vote {vs = vs} r i j v w = Rising-get vs i j v w (Run-Rising r).1
