-- ===== src/Raft/Tests.antt =====
-- Runs of a peer of src/raft1/raft.go.
use mit_6_5824_lab.Prelude.{
  ltb, ◌==◌, if◌then◌else◌, ℕ, ◌+◌, ◌/◌, ◌<◌, ◌≡◌, refl, Bool, true, false, ◌&&◌, Option, none,
  some, List, [], ◌∷◌, arith,
}
use mit_6_5824_lab.Raft.Peer.{
  follower, leader, candidate, Entry, Raft, RequestVoteArgs, RequestVoteReply, AppendEntriesArgs,
  is_leader, reset_timeout, check_term, make, pre_election, last_entry, receive_vote, request_vote,
  due, vote_args, vote, tick,
}
use mit_6_5824_lab.Raft.Votes.{fresh_vote_reply, elects, requested, Run, here, next, Run-one_vote}
use mathlib.Core.Option
use mit_6_5824_lab.Raft.Quorums.{History, quorums-meet}
use mit_6_5824_lab.Raft.Elections.{
  receive_votes, receive_votes-role, not_behind, request_vote_lem, Inv, Run-Inv,
}
use mit_6_5824_lab.Raft.Heartbeats.{receive_heartbeats, NotLater, heartbeats-election}

abbrev peer : Raft
peer = make 3 0 100 10

abbrev dummy : Entry
dummy = record { term = 0; index = 0; command = 0 }

-- The state after the first election timeout.
abbrev candidate_peer : Raft
candidate_peer = pre_election 900000000 peer

abbrev denied : RequestVoteReply
denied = record { term = 1; vote_granted = false }

abbrev request : RequestVoteArgs
request = record { term = 2; candidate_id = 1; lastest_log_term = 0; lastest_log_index = 0 }

abbrev heartbeat : AppendEntriesArgs
heartbeat = record { term = 0; leader_id = 2; entries = [] }

-- Two denied votes make a candidate among three peers the leader.
denied_run : (receive_vote (some denied) (receive_vote (some denied) candidate_peer)).role ≡ leader
unfolding receive_vote pre_election make
denied_run = refl

peer_log : last_entry peer.log ≡ some dummy
unfolding make last_entry
peer_log = refl

receive_votes-role_example :
    ((receive_votes (denied ∷ []) candidate_peer).votes_received
      ≡ candidate_peer.votes_received + 1)
    × ((receive_votes (denied ∷ []) candidate_peer).curr_term ≡ candidate_peer.curr_term)
    × ((receive_votes (denied ∷ []) candidate_peer).role ≡ (
        if 0 == 1
        then candidate_peer.role
        else if ltb (candidate_peer.peers / 2) (candidate_peer.votes_received + 1)
        then leader
        else candidate_peer.role))
unfolding pre_election make
receive_votes-role_example = receive_votes-role (denied ∷ []) candidate_peer (refl, tt)

request_vote_lem_example :
    (self' : Raft) × (reply : RequestVoteReply) × (request_vote 30 request fresh_vote_reply peer
      ≡ some (self', reply))
    × (reply.vote_granted ≡ (ltb peer.curr_term 2 && not_behind request dummy))
    × (reply.term ≡ self'.curr_term)
    × (self'.curr_term ≡ (if ltb peer.curr_term 2 then 2 else peer.curr_term))
    × (self'.role ≡ (if ltb peer.curr_term 2 then follower else peer.role))
    × (self'.voted_for ≡ (
        if ltb peer.curr_term 2
        then (if not_behind request dummy then some 1 else none)
        else peer.voted_for))
request_vote_lem_example = request_vote_lem 30 request peer dummy peer_log

-- The first election timeout, with no other handler in its round.
ticked :
    tick 900000000 peer
    ≡ some (
      candidate_peer,
      vote (record { term = 1; candidate_id = 0; lastest_log_term = 0; lastest_log_index = 0 }),
    )
unfolding tick make due vote_args pre_election last_entry
ticked = refl

-- A request of term 2 comes between preElection and the making of the arguments: the peer votes for the other in
-- term 2, and then asks for votes in term 2 itself.
late_args :
    Option.map {B = Bool × Option RequestVoteArgs}
      (λ (answer : Raft × RequestVoteReply). (answer.1.vote_granted, vote_args answer.0))
      (request_vote 900000001 request fresh_vote_reply candidate_peer)
    ≡ some (
      true,
      some (record { term = 2; candidate_id = 0; lastest_log_term = 0; lastest_log_index = 0 }),
    )
unfolding vote_args request_vote make pre_election last_entry check_term reset_timeout
late_args = refl

first_election : Run peer ((1, 0) ∷ []) candidate_peer
unfolding make
first_election = next (here peer) (elects 900000000)

Run-one_vote_example : ◌≡◌ {A = ℕ} 0 0
Run-one_vote_example = Run-one_vote first_election 0 0 (1, 0) (1, 0) refl refl refl

Run-Inv_example : Inv candidate_peer
Run-Inv_example = Run-Inv 3 0 100 10 first_election

late : (is_leader peer.role ≡ false) × (peer.last_heart_beat + peer.election_timeout < 900000000)
unfolding make
late = (refl, omega arith)

in_term : NotLater peer.curr_term ((12, heartbeat) ∷ [])
unfolding make
in_term = (omega arith, tt)

heartbeats-election_example :
    (self' : Raft) × (args : RequestVoteArgs) × (tick 900000000
        (receive_heartbeats ((12, heartbeat) ∷ []) peer)
      ≡ some (self', vote args))
    × (args.term ≡ peer.curr_term + 1)
    × (self'.curr_term ≡ peer.curr_term + 1)
    × (self'.role ≡ candidate)
    × (self'.voted_for ≡ some peer.me)
heartbeats-election_example =
    heartbeats-election ((12, heartbeat) ∷ []) 900000000 peer in_term peer_log late.0 late.1

-- Three peers: the first asks for votes after its timeout, the second votes for it, the third does nothing.
abbrev ask : RequestVoteArgs
ask = record { term = 1; candidate_id = 0; lastest_log_term = 0; lastest_log_index = 0 }

abbrev second : Raft
second = make 3 1 100 10

abbrev voter : Raft
voter = reset_timeout 30 (record second { curr_term = 1; role = follower; voted_for = some 0 })

vote_cast :
    request_vote 30 ask fresh_vote_reply second
    ≡ some (voter, record { vote_granted = true; term = 1 })
unfolding request_vote make last_entry check_term reset_timeout
vote_cast = refl

abbrev cluster : List History
cluster =
    record { first = peer; votes = (1, 0) ∷ []; last = candidate_peer; run = first_election }
    ∷ (record {
      first = second;
      votes = (1, 0) ∷ [];
      last = voter;
      run = next (here second) (requested 30 ask vote_cast);
    }
        ∷ (record { first = peer; votes = []; last = peer; run = here peer } ∷ []))

quorums-meet_example : ◌≡◌ {A = ℕ} 0 0
quorums-meet_example = quorums-meet cluster 1 0 0 (omega arith) (omega arith)
