-- ===== src/Raft/Replication.antt =====
-- The messages of raft-consensus/raft.py, and the parts of `RaftNode` that read and write its log:
-- appending entries, the commit index, the requests of a leader. `none` is an `IndexError`.
use ddia_implementations.Prelude.{
  ◌>>=◌, ℕ, zero, suc, ◌+◌, ◌-◌, ◌/◌, min, String, Bool, true, false, ◌&&◌, Option, none, some,
  List, [], ◌∷◌, ◌++◌, ltb, leb, ◌==◌, ◌!=◌, nat_key, string_key, if◌then◌else◌, get_elem?, length,
  take, drop,
}
use ddia_implementations.Dict
use ddia_implementations.Dict.{Dict}
use ddia_implementations.Raft.Node.{
  LogEntry, Role, candidate, leader, RaftNode, last_log_index, term_at,
}

pub record VoteReply : Type 0 where
  pub term : ℕ
  pub vote_granted : Bool

pub record AppendReply : Type 0 where
  pub term : ℕ
  pub success : Bool
  pub match_index : ℕ

pub record VoteRequest : Type 0 where
  pub recipient : String
  pub sender : String
  pub term : ℕ
  pub last_log_index : ℕ
  pub last_log_term : ℕ

pub record AppendRequest (C : Type 0) : Type 0 where
  pub recipient : String
  pub sender : String
  pub term : ℕ
  pub prev_log_index : ℕ
  pub prev_log_term : ℕ
  pub entries : List (LogEntry C)
  pub leader_commit : ℕ

pub data Message (C : Type 0) : Type 0 where
  request_vote : VoteRequest → Message C
  append_entries : AppendRequest C → Message C

-- `self._voted_for is None or self._voted_for == candidate_id`
abbrev pub can_vote : Option String → String → Bool
can_vote none candidate_id = true
can_vote (some v) candidate_id = v == candidate_id

abbrev pub is_candidate : Role → Bool
is_candidate candidate = true
is_candidate _ = false

abbrev pub is_leader : Role → Bool
is_leader leader = true
is_leader _ = false

-- how many peers have `match_index` at least `n`
unfoldable pub count_matching : Dict String ℕ → List String → ℕ → ℕ
count_matching matched [] n = 0
count_matching matched (p ∷ ps) n =
    let rest = count_matching matched ps n in
    if leb n (elim (Dict.get matched p) [ none ↦ 0 | some m ↦ m ]) then suc rest else rest

module _ {C : Type 0} where
  -- one round of the loop that appends `entries`, at position `log_pos`
  unfoldable pub place : List (LogEntry C) → ℕ → LogEntry C → List (LogEntry C)
  place log log_pos entry = elim (get_elem? log log_pos) [
    | none ↦ log ++ entry ∷ []
    | some old ↦ if old.term != entry.term then take log_pos log ++ entry ∷ [] else log
  ]

  unfoldable pub place_all : List (LogEntry C) → ℕ → List (LogEntry C) → List (LogEntry C)
  unfolding place
  place_all log log_pos [] = log
  place_all log log_pos (e ∷ es) = place_all (place log log_pos e) (suc log_pos) es

  -- the test of `_advance_commit_index` that the leader and a majority have entry `n`
  unfoldable pub has_quorum : RaftNode C → ℕ → Bool
  unfolding count_matching
  has_quorum n i = ltb ((length n.peer_ids + 1) / 2) (1 + count_matching n.match_index n.peer_ids i)

  -- the loop of `_advance_commit_index`: `rounds` indices from `i` on
  unfoldable pub advance_from : ℕ → ℕ → RaftNode C → Option (RaftNode C)
  unfolding has_quorum term_at
  advance_from zero i n = some n
  advance_from (suc rounds) i n = do
    t ← term_at n.log i
    advance_from rounds (suc i)
        (if t == n.current_term && has_quorum n i then record n { commit_index = i } else n)

  unfoldable pub advance_commit_index : RaftNode C → Option (RaftNode C)
  unfolding advance_from last_log_index
  advance_commit_index n = do
    last ← last_log_index n
    advance_from (last - n.commit_index) (n.commit_index + 1) n

  unfoldable pub client_request : RaftNode C → C → Option (RaftNode C × Option (LogEntry C))
  unfolding last_log_index
  client_request n command =
      if is_leader n.state
      then (do
        last ← last_log_index n
        let entry =
            let e : LogEntry C = record {
              term = n.current_term;
              index = last + 1;
              command = some command;
            } in
            e
        some (record n { log = n.log ++ entry ∷ [] }, some entry))
      else some (n, none)

  unfoldable pub make_append_entries : RaftNode C → String → Option (AppendRequest C)
  unfolding term_at
  make_append_entries n peer = do
    let ni = elim (Dict.get n.next_index peer) as (λ _. ℕ) [ none ↦ 1 | some i ↦ i ]
    prev_term ← term_at n.log (ni - 1)
    some (record {
      recipient = peer;
      sender = n.node_id;
      term = n.current_term;
      prev_log_index = ni - 1;
      prev_log_term = prev_term;
      entries = drop ni n.log;
      leader_commit = n.commit_index;
    })

  -- the branch of `handle_append_entries` that deletes a conflicting entry
  unfoldable pub drop_conflict : RaftNode C → AppendRequest C → Option (RaftNode C × AppendReply)
  unfolding last_log_index
  drop_conflict n m = do
    let n' = record n { log = take m.prev_log_index n.log }
    last ← last_log_index n'
    some (n', record { term = n.current_term; success = false; match_index = last })

  -- the branch of `handle_append_entries` that appends and updates the commit index
  unfoldable pub append_entries_from :
      RaftNode C → AppendRequest C → Option (RaftNode C × AppendReply)
  unfolding last_log_index place_all
  append_entries_from n m = do
    let n' = record n { log = place_all n.log (m.prev_log_index + 1) m.entries }
    last ← last_log_index n'
    some (
      if ltb n.commit_index m.leader_commit
          then record n' { commit_index = min m.leader_commit last }
          else n',
      record { term = n.current_term; success = true; match_index = last },
    )

  -- the part of `handle_append_entries` below the reset of the timer
  unfoldable pub append_checked : RaftNode C → AppendRequest C → Option (RaftNode C × AppendReply)
  unfolding last_log_index term_at drop_conflict append_entries_from
  append_checked n m = do
    last ← last_log_index n
    if ltb last m.prev_log_index
        then some (n, record { term = n.current_term; success = false; match_index = last })
        else do
          prev_term ← term_at n.log m.prev_log_index
          if prev_term != m.prev_log_term then drop_conflict n m else append_entries_from n m

  unfoldable pub appends_to : RaftNode C → List String → Option (List (Message C))
  unfolding make_append_entries
  appends_to n [] = some []
  appends_to n (p ∷ ps) = do
    m ← make_append_entries n p
    ms ← appends_to n ps
    some (append_entries m ∷ ms)

  unfoldable pub votes_from : RaftNode C → ℕ → ℕ → List String → List (Message C)
  votes_from n last_index last_term [] = []
  votes_from n last_index last_term (p ∷ ps) =
      request_vote (record {
        recipient = p;
        sender = n.node_id;
        term = n.current_term;
        last_log_index = last_index;
        last_log_term = last_term;
      })
      ∷ votes_from n last_index last_term ps

  unfoldable pub heartbeat : RaftNode C → ℕ → Option (RaftNode C × List (Message C))
  unfolding appends_to advance_commit_index
  heartbeat n elapsed_ms =
      let timer = n.heartbeat_timer + elapsed_ms in
      if leb n.heartbeat_interval timer
      then (do
        let n' = record n { heartbeat_timer = 0 }
        messages ← appends_to n' n.peer_ids
        n'' ← advance_commit_index n'
        some (n'', messages))
      else some (record n { heartbeat_timer = timer }, [])
