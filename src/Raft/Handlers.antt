-- ===== src/Raft/Handlers.antt =====
-- The message handlers and the timer of `RaftNode` of raft-consensus/raft.py. `none` is an
-- `IndexError`.
use ddia_implementations.Prelude.{
  ◌>>=◌, ℕ, ◌+◌, ◌-◌, ◌/◌, max, String, Bool, true, false, ◌&&◌, ◌||◌, Option, none, some, List, [],
  ltb, leb, ◌==◌, ◌!=◌, nat_key, string_key, if◌then◌else◌, length, not,
}
use ddia_implementations.Dict
use ddia_implementations.Dict.{Dict}
use ddia_implementations.Sets
use ddia_implementations.Raft.Node.{
  RaftNode, last_log_index, last_log_term, is_log_up_to_date, become_leader, reset_election_timer,
  become_follower, become_candidate,
}
use ddia_implementations.Raft.Replication.{
  VoteReply, AppendReply, AppendRequest, Message, can_vote, is_candidate, is_leader,
  advance_commit_index, append_checked, votes_from, heartbeat,
}

module _ {C : Type 0} (draw : String → ℕ → ℕ) where
  unfoldable pub handle_request_vote :
      RaftNode C → String → ℕ → ℕ → ℕ → Option (RaftNode C × VoteReply)
  unfolding become_follower is_log_up_to_date reset_election_timer
  handle_request_vote n candidate_id candidate_term last_index last_term =
      let n' =
        if ltb n.current_term candidate_term then become_follower draw n candidate_term else n in
      if ltb candidate_term n'.current_term
      then some (n', record { term = n'.current_term; vote_granted = false })
      else do
        log_ok ← is_log_up_to_date n' last_term last_index
        if can_vote n'.voted_for candidate_id && log_ok
            then some (
              reset_election_timer draw (record n' { voted_for = some candidate_id }),
              record { term = n'.current_term; vote_granted = true },
            )
            else some (n', record { term = n'.current_term; vote_granted = false })

  -- the tests of `handle_append_entries` on terms, up to the reset of the timer
  unfoldable pub step_down : RaftNode C → ℕ → RaftNode C
  unfolding become_follower
  step_down n leader_term =
      if ltb n.current_term leader_term || (leader_term == n.current_term && is_candidate n.state)
      then become_follower draw n leader_term
      else n

  unfoldable pub handle_append_entries :
      RaftNode C → AppendRequest C → Option (RaftNode C × AppendReply)
  unfolding step_down reset_election_timer append_checked
  handle_append_entries n m =
      let n' = step_down n m.term in
      if ltb m.term n'.current_term
      then some (n', record { term = n'.current_term; success = false; match_index = 0 })
      else append_checked (reset_election_timer draw n') m

  unfoldable pub handle_vote_response : RaftNode C → String → ℕ → Bool → Option (RaftNode C)
  unfolding become_follower become_leader
  handle_vote_response n from_id term vote_granted =
      if ltb n.current_term term
      then some (become_follower draw n term)
      else if not (is_candidate n.state) || term != n.current_term
      then some n
      else if vote_granted
      then (let n' = record n { votes_received = Sets.insert from_id n.votes_received } in
          if ltb ((length n.peer_ids + 1) / 2) (length n'.votes_received)
          then become_leader n'
          else some n')
      else some n

  unfoldable pub handle_append_response : RaftNode C → String → ℕ → Bool → ℕ → Option (RaftNode C)
  unfolding become_follower advance_commit_index
  handle_append_response n from_id term success match_index =
      if ltb n.current_term term
      then some (become_follower draw n term)
      else if not (is_leader n.state)
      then some n
      else if success
      then advance_commit_index (record n {
        next_index = Dict.put n.next_index from_id (match_index + 1);
        match_index = Dict.put n.match_index from_id match_index;
      })
      else some (record n {
        next_index =
            Dict.put n.next_index from_id
              (max 1 (elim (Dict.get n.next_index from_id) [ none ↦ 1 | some i ↦ i ] - 1));
      })

  unfoldable pub elect : RaftNode C → ℕ → Option (RaftNode C × List (Message C))
  unfolding become_candidate votes_from last_log_index last_log_term
  elect n elapsed_ms =
      let timer = n.election_timer + elapsed_ms in
      if leb n.election_timeout timer
      then (do
        let n' = become_candidate draw n
        last_index ← last_log_index n'
        last_term ← last_log_term n'
        some (n', votes_from n' last_index last_term n'.peer_ids))
      else some (record n { election_timer = timer }, [])

  unfoldable pub tick : RaftNode C → ℕ → Option (RaftNode C × List (Message C))
  unfolding heartbeat elect
  tick n elapsed_ms = if is_leader n.state then heartbeat n elapsed_ms else elect n elapsed_ms
