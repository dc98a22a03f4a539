-- ===== src/Raft/Peer.antt =====
-- src/raft1/raft.go: one peer. Each handler holds `self.mu` throughout, so it is one step on the
-- state. Times are nanoseconds; `votedFor` is -1 or a peer's index, here none or some; logging and
-- `persist`, which is empty, are left out.
use mit_6_5824_lab.Prelude.{
  ltb, ◌==◌, if◌then◌else◌, length, ℕ, zero, suc, ◌+◌, ◌-◌, ◌*◌, ◌/◌, Bool, true, false, not,
  Option, none, some, List, [], ◌∷◌,
}

pub data NodeRole : Type 0 where
  follower leader candidate : NodeRole

-- `Command` is of any type; only its presence in an entry matters to the peer.
pub record Entry : Type 0 where
  pub term : ℕ
  pub index : ℕ
  pub command : ℕ

pub record Raft : Type 0 where
  pub peers : ℕ
  pub me : ℕ
  pub dead : Bool
  pub curr_term : ℕ
  pub role : NodeRole
  pub log : List Entry
  pub voted_for : Option ℕ
  pub votes_received : ℕ
  pub election_timeout : ℕ
  pub last_heart_beat : ℕ
  pub last_applied_index : ℕ
  pub last_commited_index : ℕ

pub record RequestVoteArgs : Type 0 where
  pub term : ℕ
  pub candidate_id : ℕ
  pub lastest_log_term : ℕ
  pub lastest_log_index : ℕ

pub record RequestVoteReply : Type 0 where
  pub term : ℕ
  pub vote_granted : Bool

pub record AppendEntriesArgs : Type 0 where
  pub term : ℕ
  pub leader_id : ℕ
  pub entries : List Entry

pub record AppendEntriesReply : Type 0 where
  pub term : ℕ
  pub success : Bool

abbrev pub is_leader : NodeRole → Bool
is_leader leader = true
is_leader _ = false

abbrev pub is_none : Option ℕ → Bool
is_none none = true
is_none (some _) = false

-- resetTimeout
unfoldable pub reset_timeout : ℕ → Raft → Raft
reset_timeout now self = record self { last_heart_beat = now }

-- setRole
unfoldable pub set_role : NodeRole → Raft → Raft
set_role role self = record self { role = role }

-- checkTerm
unfoldable pub check_term : ℕ → Raft → Raft × Bool
unfolding set_role
check_term term self =
    if ltb self.curr_term term
    then (record (set_role follower self) { curr_term = term; voted_for = none }, false)
    else (self, true)

-- Make: `rand` is the value of rand.Intn(150). The dummy entry is all of the log.
unfoldable pub make : ℕ → ℕ → ℕ → ℕ → Raft
make peers me rand now = record {
  peers = peers;
  me = me;
  dead = false;
  curr_term = 0;
  role = follower;
  log = record { term = 0; index = 0; command = 0 } ∷ [];
  voted_for = none;
  votes_received = 0;
  election_timeout = (150 + rand) * 1_000_000;
  last_heart_beat = now;
  last_applied_index = 0;
  last_commited_index = 0;
}

-- AppendEntries
unfoldable pub append_entries :
    ℕ → AppendEntriesArgs → AppendEntriesReply → Raft → Raft × AppendEntriesReply
unfolding check_term reset_timeout
append_entries now args reply self =
    let (self', legit) = check_term args.term self in
    if legit then (self', record { success = false; term = self'.curr_term }) else (
      if length args.entries == 0 then reset_timeout now self' else self',
      record { term = self'.curr_term; success = true },
    )

-- preElection
unfoldable pub pre_election : ℕ → Raft → Raft
pre_election now self = record self {
  curr_term = self.curr_term + 1;
  role = candidate;
  voted_for = some self.me;
  last_heart_beat = now;
}

-- self.log[len(self.log)-1], which panics on an empty log.
unfoldable pub last_entry : List Entry → Option Entry
last_entry [] = none
last_entry (e ∷ es) = let rest = last_entry es in elim es [ [] ↦ some e | _ ∷ _ ↦ rest ]

-- sendRequestVote from the reply on: `none` is a call that failed.
unfoldable pub receive_vote : Option RequestVoteReply → Raft → Raft
unfolding check_term
receive_vote none self = self
receive_vote (some reply) self =
    if ltb reply.term self.curr_term
    then self
    else let (self', legit) = check_term reply.term self in
      if not legit
      then self'
      else let votes = self'.votes_received + 1 in
        if ltb (self'.peers / 2) votes
        then record self' { votes_received = votes; role = leader }
        else record self' { votes_received = votes }

-- RequestVote; `none` is the panic of an empty log.
unfoldable pub request_vote :
    ℕ → RequestVoteArgs → RequestVoteReply → Raft → Option (Raft × RequestVoteReply)
unfolding check_term reset_timeout
request_vote now args reply self =
    let (self', legit) = check_term args.term self in
    if legit
    then some (self', record { vote_granted = false; term = self'.curr_term })
    else (elim (last_entry self'.log) [
      | none ↦ none
      | some last ↦
          if ltb args.lastest_log_term last.term
          then some (self', record { vote_granted = false; term = self'.curr_term })
          else if ltb args.lastest_log_index last.index
          then some (self', record { vote_granted = false; term = self'.curr_term })
          else if is_none self'.voted_for
          then some (
            reset_timeout now (record self' { voted_for = some args.candidate_id }),
            record { vote_granted = true; term = self'.curr_term },
          )
          else some (reset_timeout now self', reply)
    ])

-- ticker holds no lock but in preElection, so other handlers may come between its steps: the tests of a round,
-- preElection, and the making of the arguments.

-- What the tests of a round lead to.
pub data Due : Type 0 where
  no_due heartbeat_due election_due : Due

unfoldable pub due : ℕ → Raft → Due
due now self =
    if is_leader self.role
    then heartbeat_due
    else if ltb self.election_timeout (now - self.last_heart_beat)
    then election_due
    else no_due

-- The arguments of a heartbeat, from the state in which they are made.
unfoldable pub heartbeat_args : Raft → AppendEntriesArgs
heartbeat_args self = record { term = self.curr_term; leader_id = self.me; entries = [] }

-- The arguments of a request for votes, from the state in which they are made, whose term need not be the one
-- that preElection has begun.
unfoldable pub vote_args : Raft → Option RequestVoteArgs
unfolding last_entry
vote_args self = elim (last_entry self.log) [
  | none ↦ none
  | some last ↦ some (record {
    term = self.curr_term;
    candidate_id = self.me;
    lastest_log_term = last.term;
    lastest_log_index = last.index;
  })
]

-- What a round sends to every other peer.
pub data Broadcast : Type 0 where
  nothing : Broadcast
  append : AppendEntriesArgs → Broadcast
  vote : RequestVoteArgs → Broadcast

-- One round of ticker up to its sleep, if no other handler comes between its steps.
unfoldable pub tick : ℕ → Raft → Option (Raft × Broadcast)
unfolding due pre_election heartbeat_args vote_args
tick now self = elim (due now self) [
  | heartbeat_due ↦ some (self, append (heartbeat_args self))
  | no_due ↦ some (self, nothing)
  | election_due ↦ (elim (vote_args (pre_election now self)) [
    | none ↦ none
    | some args ↦ some (pre_election now self, vote args)
  ])
]

-- The peers that broadCastVote and broadCastAppendEntries send to: all but `me`, from `i` on.
unfoldable pub receivers : ℕ → ℕ → ℕ → List ℕ
receivers me i zero = []
receivers me i (suc left) =
    let rest = receivers me (i + 1) left in if i == me then rest else i ∷ rest

-- GetState
unfoldable pub get_state : Raft → ℕ × Bool
get_state self = (self.curr_term, is_leader self.role)

-- Start: the index and the term are -1, here none.
unfoldable pub start : ℕ → Raft → Option ℕ × Option ℕ × Bool
start command self = (none, none, true)

-- Kill and killed
unfoldable pub kill : Raft → Raft
kill self = record self { dead = true }

unfoldable pub killed : Raft → Bool
killed self = self.dead
