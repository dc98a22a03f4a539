-- ===== src/Raft/Heartbeats.antt =====
-- Heartbeats and the election timer of src/raft1/raft.go.
use mit_6_5824_lab.Prelude.{
  ltb, ◌==◌, if◌then◌else◌, length, ℕ, ◌+◌, ◌≤◌, ◌<◌, ◌≡◌, refl, ap, ◌∙◌, true, false, none, some,
  List, [], ◌∷◌, arith,
}
use mit_6_5824_lab.Raft.Peer.{
  follower, candidate, Entry, Raft, RequestVoteArgs, AppendEntriesArgs, AppendEntriesReply,
  is_leader, append_entries, pre_election, last_entry, due, vote_args, vote, tick,
}

-- AppendEntries in all cases: a request of a later term is accepted, makes the peer a follower of
-- that term that has not voted, and an empty one resets the timer; any other request, also one of
-- the leader of the peer's own term, is refused and changes nothing.
append_entries_lem :
    (now : ℕ) (args : AppendEntriesArgs) (reply : AppendEntriesReply) (self : Raft)
    → append_entries now args reply self ≡ (
        if ltb self.curr_term args.term
        then (
          record self {
            role = follower;
            curr_term = args.term;
            voted_for = none;
            last_heart_beat = if length args.entries == 0 then now else self.last_heart_beat;
          },
          record { term = args.term; success = true },
        )
        else (self, record { term = self.curr_term; success = false }))
unfolding append_entries
append_entries_lem now args reply self = ground arith

-- The heartbeats that come in one after another, each at its time.
unfoldable pub receive_heartbeats : List (ℕ × AppendEntriesArgs) → Raft → Raft
receive_heartbeats [] self = self
receive_heartbeats ((now, args) ∷ rest) self =
    receive_heartbeats rest (append_entries now args (record { term = 0; success = false }) self).0

abbrev pub NotLater : ℕ → List (ℕ × AppendEntriesArgs) → Type 0
NotLater t [] = Unit
NotLater t ((now, args) ∷ rest) = (args.term ≤ t) × NotLater t rest

receive_heartbeats-same :
    (beats : List (ℕ × AppendEntriesArgs)) (self : Raft)
    → NotLater self.curr_term beats
    → receive_heartbeats beats self ≡ self
unfolding receive_heartbeats
receive_heartbeats-same [] self h = refl
receive_heartbeats-same ((now, args) ∷ rest) self h = ground (
  arith,
  append_entries_lem now args (record { term = 0; success = false }) self,
  receive_heartbeats-same rest self,
)

tick-election :
    (now : ℕ) (self : Raft) (last : Entry)
    → last_entry self.log ≡ some last
    → is_leader self.role ≡ false
    → self.last_heart_beat + self.election_timeout < now
    → tick now self
      ≡ some (
        pre_election now self,
        vote (record {
          term = self.curr_term + 1;
          candidate_id = self.me;
          lastest_log_term = last.term;
          lastest_log_index = last.index;
        }),
      )
unfolding tick pre_election due vote_args
tick-election now self last l f t = ground arith

-- However many heartbeats of its own term a peer that is no leader gets, in its first round of ticker after the
-- election timeout from its last reset, if no handler comes between the steps of the round, it starts an
-- election: it becomes candidate of the next term and votes for itself, and asks for votes in that term.
pub heartbeats-election :
    (beats : List (ℕ × AppendEntriesArgs)) (now : ℕ) (self : Raft) {last : Entry}
    → NotLater self.curr_term beats
    → last_entry self.log ≡ some last
    → is_leader self.role ≡ false
    → self.last_heart_beat + self.election_timeout < now
    → (self' : Raft) × (args : RequestVoteArgs) × (tick now (receive_heartbeats beats self)
        ≡ some (self', vote args))
      × (args.term ≡ self.curr_term + 1)
      × (self'.curr_term ≡ self.curr_term + 1)
      × (self'.role ≡ candidate)
      × (self'.voted_for ≡ some self.me)
unfolding pre_election
heartbeats-election beats now self {last} h l f t = (
  pre_election now self,
  record {
    term = self.curr_term + 1;
    candidate_id = self.me;
    lastest_log_term = last.term;
    lastest_log_index = last.index;
  },
  ap (tick now) (receive_heartbeats-same beats self h) ∙ tick-election now self last l f t,
  refl,
  refl,
  refl,
  refl,
)
