-- ===== src/Raft/Elections.antt =====
-- How a peer of src/raft1/raft.go becomes leader, and whom it votes for.
use mit_6_5824_lab.Prelude.{
  ltb, leb, ◌==◌, if◌then◌else◌, Bool-cases, length, ℕ, ◌+◌, ◌/◌, ◌<◌, ◌≡◌, refl, inl, inr, Bool,
  true, ◌&&◌, none, some, List, [], ◌∷◌, arith,
}
use mit_6_5824_lab.Raft.Peer.{
  follower, leader, Entry, Raft, RequestVoteArgs, RequestVoteReply, is_leader, make, append_entries,
  pre_election, last_entry, receive_vote, request_vote, kill,
}
use mit_6_5824_lab.Raft.Votes.{
  Vote, fresh_vote_reply, Step, elects, requested, appended, heard, kills, Run, here, next,
}

-- The replies of one election that come in one after another.
unfoldable pub receive_votes : List RequestVoteReply → Raft → Raft
receive_votes [] self = self
receive_votes (reply ∷ replies) self = receive_votes replies (receive_vote (some reply) self)

abbrev pub AllOfTerm : ℕ → List RequestVoteReply → Type 0
AllOfTerm t [] = Unit
AllOfTerm t (reply ∷ replies) = (reply.term ≡ t) × AllOfTerm t replies

receive_vote-same_term :
    (reply : RequestVoteReply) (self : Raft)
    → reply.term ≡ self.curr_term
    → receive_vote (some reply) self ≡ (
        if ltb (self.peers / 2) (self.votes_received + 1)
        then record self { votes_received = self.votes_received + 1; role = leader }
        else record self { votes_received = self.votes_received + 1 })
unfolding receive_vote
receive_vote-same_term reply self e = ground arith

-- A peer counts every reply of its own term as a vote, granted or denied, whatever its role, on top
-- of the count that it has from earlier elections; with more than half of the peers it leads.
pub receive_votes-role :
    (replies : List RequestVoteReply) (self : Raft)
    → AllOfTerm self.curr_term replies
    → ((receive_votes replies self).votes_received ≡ self.votes_received + length replies)
      × ((receive_votes replies self).curr_term ≡ self.curr_term)
      × ((receive_votes replies self).role ≡ (
          if 0 == length replies
          then self.role
          else if ltb (self.peers / 2) (self.votes_received + length replies)
          then leader
          else self.role))
unfolding receive_votes
receive_votes-role [] self h = ground arith
receive_votes-role (reply ∷ replies) self h =
    let one = receive_vote-same_term reply self h.0 in
    let term : (receive_vote (some reply) self).curr_term ≡ self.curr_term = ground arith in
    let rest = receive_votes-role replies (receive_vote (some reply) self) (rw term h.1) in
    elim (Bool-cases (ltb (self.peers / 2) (self.votes_received + 1))) [
      | inl won ↦ ground arith
      | inr lost ↦ ground arith
    ]

-- A candidate's request is up to date for a peer whose last entry is `last`.
abbrev pub not_behind : RequestVoteArgs → Entry → Bool
not_behind args last = leb last.term args.lastest_log_term && leb last.index args.lastest_log_index

-- RequestVote in all cases, on a log with last entry `last`: it grants the vote exactly to a
-- candidate of a later term than its own whose last entry is behind neither in term nor in index;
-- it takes over a later term, and becomes a follower then, in any case; its reply is of its term.
pub request_vote_lem :
    (now : ℕ) (args : RequestVoteArgs) (self : Raft) (last : Entry)
    → last_entry self.log ≡ some last
    → (self' : Raft) × (reply : RequestVoteReply) × (request_vote now args fresh_vote_reply self
        ≡ some (self', reply))
      × (reply.vote_granted ≡ (ltb self.curr_term args.term && not_behind args last))
      × (reply.term ≡ self'.curr_term)
      × (self'.curr_term ≡ (if ltb self.curr_term args.term then args.term else self.curr_term))
      × (self'.role ≡ (if ltb self.curr_term args.term then follower else self.role))
      × (self'.voted_for ≡ (
          if ltb self.curr_term args.term
          then (if not_behind args last then some args.candidate_id else none)
          else self.voted_for))
unfolding request_vote
request_vote_lem now args self last h = (
  (if ltb self.curr_term args.term
      then record self {
        role = follower;
        curr_term = args.term;
        voted_for = if not_behind args last then some args.candidate_id else none;
        last_heart_beat = if not_behind args last then now else self.last_heart_beat;
      }
      else self),
  record {
    vote_granted = ltb self.curr_term args.term && not_behind args last;
    term = if ltb self.curr_term args.term then args.term else self.curr_term;
  },
  ground arith,
  refl,
  ground arith,
  ground arith,
  ground arith,
  ground arith,
)

-- What holds in every state of a peer from Make on: the log ends with the dummy entry, and a leader has
-- counted more than half of the peers as votes.
pub record Inv (self : Raft) : Type 0 where
  pub log : last_entry self.log ≡ some (record { term = 0; index = 0; command = 0 })
  pub majority : is_leader self.role ≡ true → self.peers / 2 < self.votes_received

Inv-make : (peers me rand now : ℕ) → Inv (make peers me rand now)
unfolding make last_entry
Inv-make peers me rand now = record { log = refl; majority = λ p. cc }

Step-Inv : {self self' : Raft} {vs : List Vote} → Step self vs self' → Inv self → Inv self'
unfolding pre_election request_vote append_entries receive_vote kill
Step-Inv {self} (elects now) v = record {
  log = ground (arith, v.log);
  majority = ground (arith, v.majority);
}
Step-Inv {self} (requested now args h) v = record {
  log = ground (arith, v.log);
  majority = ground (arith, v.majority);
}
Step-Inv {self} (appended now args reply) v = record {
  log = ground (arith, v.log);
  majority = ground (arith, v.majority);
}
Step-Inv {self} (heard none) v = v
Step-Inv {self} (heard (some reply)) v = record {
  log = ground (arith, v.log);
  majority = ground (arith, v.majority);
}
Step-Inv {self} kills v = record { log = v.log; majority = v.majority }

Run-Inv_from : {self self' : Raft} {vs : List Vote} → Run self vs self' → Inv self → Inv self'
Run-Inv_from (here self) v = v
Run-Inv_from (next r s) v = Step-Inv s (Run-Inv_from r v)

-- In every state of a run from Make on, whatever the peer receives and whenever its timer fires, the log
-- ends with the dummy entry, and a leader has counted more than half of the peers as votes.
pub Run-Inv :
    (peers me rand now : ℕ) {vs : List Vote} {self : Raft}
    → Run (make peers me rand now) vs self
    → Inv self
Run-Inv peers me rand now r = Run-Inv_from r (Inv-make peers me rand now)
