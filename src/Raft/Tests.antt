-- ===== src/Raft/Tests.antt =====
-- The theorems on a Raft node at concrete inputs: a node of three, with numbers as commands.
use ddia_implementations.Sets
use ddia_implementations.Dict
use ddia_implementations.Raft.Append.{handle_append_entries-success}
use ddia_implementations.Raft.Commit.{IsLatest, IsCommittable, advance_commit_index-IsLatest}
use ddia_implementations.Raft.Vote.{Input, vote_input, react, react_all}
use ddia_implementations.Raft.Handlers.{
  handle_request_vote, handle_append_entries, handle_vote_response, handle_append_response, tick,
}
use ddia_implementations.Raft.Replication.{
  AppendRequest, AppendReply, advance_commit_index, has_quorum,
}
use ddia_implementations.Raft.Vote.Once.{OneVote, votes_once, candidate_forgets_vote}
use ddia_implementations.Prelude.{
  ℕ, ◌+◌, String, ◌≡◌, ◌∷◌, List, some, none, [], string_ne, true, get_elem?, refl, ◌-◌, arith,
  string_dec, ℕ_discrete,
}
use ddia_implementations.Raft.Node.{
  RaftNode, LogEntry, init, term_at, leader, candidate, become_follower, become_candidate, follower,
  last_log_index, is_log_up_to_date, last_entry,
}

runs : Unit {0}
unfolding last_entry init become_follower become_candidate handle_request_vote handle_append_entries
    handle_vote_response handle_append_response tick react react_all Dict.get Dict.put Sets.insert
    string_dec ℕ_discrete advance_commit_index term_at last_log_index has_quorum is_log_up_to_date
runs = tt

abbrev draw : String → ℕ → ℕ
draw name k = 150 + k

abbrev start : RaftNode ℕ
start = record {
  node_id = "a";
  peer_ids = "b" ∷ "c" ∷ [];
  current_term = 0;
  voted_for = none;
  log = record { term = 0; index = 0; command = none } ∷ [];
  state = follower;
  commit_index = 0;
  last_applied = 0;
  next_index = [];
  match_index = [];
  election_timer = 0;
  election_timeout = 150;
  heartbeat_timer = 0;
  heartbeat_interval = 50;
  votes_received = [];
  draws = 1;
}

start-init : init draw "a" ("b" ∷ "c" ∷ []) ≡ start
unfolding runs
start-init = refl

-- requests of two candidates in term 1, then of one in term 2
abbrev requests : List (Input ℕ)
requests = vote_input "b" 1 0 0 ∷ vote_input "c" 1 0 0 ∷ vote_input "c" 2 0 0 ∷ []

abbrev voted : RaftNode ℕ
voted = record start { current_term = 2; voted_for = some "c"; draws = 5; election_timeout = 154 }

votes_once_example : OneVote ((2, "c") ∷ (1, "b") ∷ [])
unfolding runs
votes_once_example =
    votes_once draw "a" ("b" ∷ "c" ∷ []) requests {n' = voted}
      (string_ne "b" "a" refl, (string_ne "c" "a" refl, (string_ne "c" "a" refl, tt))) refl

abbrev entry : ℕ → ℕ → ℕ → LogEntry ℕ
entry t i c = record { term = t; index = i; command = some c }

abbrev message : AppendRequest ℕ
message = record {
  recipient = "a";
  sender = "b";
  term = 1;
  prev_log_index = 0;
  prev_log_term = 0;
  entries = entry 1 1 7 ∷ entry 1 2 8 ∷ [];
  leader_commit = 1;
}

abbrev followed : RaftNode ℕ
followed = record start {
  current_term = 1;
  draws = 3;
  election_timeout = 152;
  commit_index = 1;
  log = record { term = 0; index = 0; command = none } ∷ entry 1 1 7 ∷ entry 1 2 8 ∷ [];
}

abbrev accepted : AppendReply
accepted = record { term = 1; success = true; match_index = 2 }

handle_append_entries-success_example :
    (term_at start.log 0 ≡ some 0)
    × (get_elem? followed.log 0 ≡ get_elem? start.log 0)
    × (term_at followed.log (0 + 1 + 1) ≡ term_at message.entries 1)
unfolding runs
handle_append_entries-success_example =
    handle_append_entries-success draw start message followed accepted refl refl 0 1 (omega arith)
      (omega arith)

abbrev leading : RaftNode ℕ
leading = record followed {
  state = leader;
  commit_index = 0;
  match_index = ("b", 2) ∷ ("c", 1) ∷ [];
}

advance_commit_index-IsLatest_example :
    (n' : RaftNode ℕ) × (advance_commit_index leading ≡ some n')
    × IsLatest (IsCommittable leading) (2 - 0) (0 + 1) 0 n'.commit_index
unfolding runs
advance_commit_index-IsLatest_example =
    advance_commit_index-IsLatest leading 2 refl (omega arith) (omega arith)

abbrev standing : RaftNode ℕ
standing = record start { state = candidate; current_term = 1; voted_for = some "a" }

candidate_forgets_vote_example :
    (n'' : RaftNode ℕ) × (handle_request_vote draw followed "c" 1 2 1
      ≡ some (n'', record { term = 1; vote_granted = true }))
unfolding runs
candidate_forgets_vote_example =
    candidate_forgets_vote draw standing message followed accepted refl refl refl "c" 2 1 refl
