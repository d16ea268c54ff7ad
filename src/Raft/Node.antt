-- ===== src/Raft/Node.antt =====
-- The state of `RaftNode` of raft-consensus/raft.py, its role changes and its log. What
-- `random.randint` returns to a node is the argument `draw`, by the node's name and the number of
-- draws before; `none` is the `IndexError` of an access to a log that is too short.
use ddia_implementations.Prelude.{
  ◌>>=◌, ℕ, ◌+◌, String, Bool, Option, none, some, List, [], ◌∷◌, ltb, leb, ◌==◌, nat_key,
  string_key, if◌then◌else◌, get_elem?,
}
use ddia_implementations.Dict
use ddia_implementations.Dict.{Dict}

pub record LogEntry (C : Type 0) : Type 0 where
  pub term : ℕ
  pub index : ℕ
  pub command : Option C

pub data Role : Type 0 where
  follower candidate leader : Role

pub record RaftNode (C : Type 0) : Type 0 where
  pub node_id : String
  pub peer_ids : List String
  pub current_term : ℕ
  pub voted_for : Option String
  pub log : List (LogEntry C)
  pub state : Role
  pub commit_index : ℕ
  pub last_applied : ℕ
  pub next_index : Dict String ℕ
  pub match_index : Dict String ℕ
  pub election_timer : ℕ
  pub election_timeout : ℕ
  pub heartbeat_timer : ℕ
  pub heartbeat_interval : ℕ
  pub votes_received : List String
  pub draws : ℕ

-- the loop of `_become_leader` over the peers
unfoldable pub reset_index : List String → ℕ → Dict String ℕ → Dict String ℕ
reset_index [] v d = d
reset_index (p ∷ ps) v d = reset_index ps v (Dict.put d p v)

module _ {C : Type 0} where
  -- self._log[-1]
  unfoldable pub last_entry : List (LogEntry C) → Option (LogEntry C)
  last_entry [] = none
  last_entry (e ∷ []) = some e
  last_entry (e ∷ f ∷ es) = last_entry (f ∷ es)

  unfoldable pub last_log_index : RaftNode C → Option ℕ
  last_log_index n = do e ← last_entry n.log; some e.index

  unfoldable pub last_log_term : RaftNode C → Option ℕ
  last_log_term n = do e ← last_entry n.log; some e.term

  -- self._log[i].term
  unfoldable pub term_at : List (LogEntry C) → ℕ → Option ℕ
  term_at log i = do e ← get_elem? log i; some e.term

  unfoldable pub is_log_up_to_date : RaftNode C → ℕ → ℕ → Option Bool
  unfolding last_log_index last_log_term
  is_log_up_to_date n last_term last_index = do
    my_term ← last_log_term n
    my_index ← last_log_index n
    some (if last_term == my_term then leb my_index last_index else ltb my_term last_term)

  unfoldable pub become_leader : RaftNode C → Option (RaftNode C)
  unfolding last_log_index
  become_leader n = do
    last ← last_log_index n
    some (record n {
      state = leader;
      next_index = reset_index n.peer_ids (last + 1) n.next_index;
      match_index = reset_index n.peer_ids 0 n.match_index;
      heartbeat_timer = n.heartbeat_interval;
    })

module _ {C : Type 0} (draw : String → ℕ → ℕ) where
  unfoldable pub reset_election_timer : RaftNode C → RaftNode C
  reset_election_timer n = record n {
    election_timeout = draw n.node_id n.draws;
    draws = n.draws + 1;
    election_timer = 0;
  }

  unfoldable pub init : String → List String → RaftNode C
  unfolding reset_election_timer
  init node_id peer_ids = reset_election_timer (record {
    node_id = node_id;
    peer_ids = peer_ids;
    current_term = 0;
    voted_for = none;
    log = record { term = 0; index = 0; command = none } ∷ [];
    state = follower;
    commit_index = 0;
    last_applied = 0;
    next_index = [];
    match_index = [];
    election_timer = 0;
    election_timeout = 0;
    heartbeat_timer = 0;
    heartbeat_interval = 50;
    votes_received = [];
    draws = 0;
  })

  unfoldable pub become_follower : RaftNode C → ℕ → RaftNode C
  unfolding reset_election_timer
  become_follower n term =
      reset_election_timer (record n { state = follower; current_term = term; voted_for = none })

  unfoldable pub become_candidate : RaftNode C → RaftNode C
  unfolding reset_election_timer
  become_candidate n = reset_election_timer (record n {
    state = candidate;
    current_term = n.current_term + 1;
    voted_for = some n.node_id;
    votes_received = n.node_id ∷ [];
  })
