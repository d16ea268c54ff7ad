-- ===== src/Raft/Vote/Own.antt =====
-- A candidate has voted for itself, whatever reaches it.
use ddia_implementations.Raft.Replication.{AppendReply, Message}
use ddia_implementations.Raft.Handlers.{
  handle_request_vote, handle_append_entries, handle_vote_response, handle_append_response, tick,
  step_down,
}
use ddia_implementations.Prelude.{
  ℕ, String, ◌≡◌, string_key, ◌+◌, inl, inr, Option, true, some, Option-cases, arith, Bool, List,
}
use ddia_implementations.Dict
use ddia_implementations.Raft.Node.{RaftNode, reset_election_timer, LogEntry}
use ddia_implementations.Raft.Vote.{
  Input, vote_input, append_input, vote_reply, append_reply, time_input, command_input, Grant,
  react, is_candidate, handle_request_vote, handle_append_entries, handle_vote_response,
  handle_append_response, tick, client_request, VoteReply, AppendRequest,
}
use ddia_implementations.Raft.Vote.Frame.{
  advance_commit_index-SameVote, client_request-SameVote, append_checked-SameVote,
  heartbeat-SameVote,
}

pub record IsSelfVoted {C : Type 0} (name : String) (n : RaftNode C) : Type 0 where
  pub own : is_candidate n.state ≡ true → n.voted_for ≡ some n.node_id
  pub named : n.node_id ≡ name

module _ {C : Type 0} (draw : String → ℕ → ℕ) (name : String) (n : RaftNode C) where
  vote_input-IsSelfVoted :
      (c : String) (t li lt : ℕ) (n' : RaftNode C) (r : VoteReply)
      → IsSelfVoted name n
      → handle_request_vote draw n c t li lt ≡ some (n', r)
      → IsSelfVoted name n'
  unfolding handle_request_vote
  vote_input-IsSelfVoted c t li lt n' r v h = ground (arith, v.own, v.named)

  append_input-IsSelfVoted :
      (m : AppendRequest C) (n' : RaftNode C) (r : AppendReply)
      → IsSelfVoted name n
      → handle_append_entries draw n m ≡ some (n', r)
      → IsSelfVoted name n'
  unfolding handle_append_entries
  append_input-IsSelfVoted m n' r v h = ground (
    arith,
    v.own,
    v.named,
    append_checked-SameVote (reset_election_timer draw (step_down draw n m.term)) m n' r,
  )

  vote_reply-IsSelfVoted :
      (f : String) (t : ℕ) (b : Bool) (n' : RaftNode C)
      → IsSelfVoted name n
      → handle_vote_response draw n f t b ≡ some n'
      → IsSelfVoted name n'
  unfolding handle_vote_response
  vote_reply-IsSelfVoted f t b n' v h = ground (arith, v.own, v.named)

  append_reply-IsSelfVoted :
      (f : String) (t : ℕ) (b : Bool) (i : ℕ) (n' : RaftNode C)
      → IsSelfVoted name n
      → handle_append_response draw n f t b i ≡ some n'
      → IsSelfVoted name n'
  unfolding handle_append_response
  append_reply-IsSelfVoted f t b i n' v h = ground (
    arith,
    v.own,
    v.named,
    advance_commit_index-SameVote
        (record n {
          next_index = Dict.put n.next_index f (i + 1);
          match_index = Dict.put n.match_index f i;
        })
        n',
  )

  time_input-IsSelfVoted :
      (ms : ℕ) (n' : RaftNode C) (r : List (Message C))
      → IsSelfVoted name n
      → tick draw n ms ≡ some (n', r)
      → IsSelfVoted name n'
  unfolding tick
  time_input-IsSelfVoted ms n' r v h = ground (arith, v.own, v.named, heartbeat-SameVote n ms n' r)

  command_input-IsSelfVoted :
      (c : C) (n' : RaftNode C) (r : Option (LogEntry C))
      → IsSelfVoted name n
      → client_request n c ≡ some (n', r)
      → IsSelfVoted name n'
  command_input-IsSelfVoted c n' r v h =
      ground (arith, v.own, v.named, client_request-SameVote n c n' r)

  pub react-IsSelfVoted :
      (i : Input C) (n' : RaftNode C) (o : Option Grant)
      → IsSelfVoted name n
      → react draw n i ≡ some (n', o)
      → IsSelfVoted name n'
  unfolding react
  react-IsSelfVoted (vote_input c t li lt) n' o v h =
      elim (Option-cases (handle_request_vote draw n c t li lt)) [
        | inl e ↦ absurd (ground arith)
        | inr (p, e) ↦ let kept = vote_input-IsSelfVoted c t li lt p.0 p.1 v e in ground arith
      ]
  react-IsSelfVoted (append_input m) n' o v h =
      elim (Option-cases (handle_append_entries draw n m)) [
        | inl e ↦ absurd (ground arith)
        | inr (p, e) ↦ let kept = append_input-IsSelfVoted m p.0 p.1 v e in ground arith
      ]
  react-IsSelfVoted (vote_reply f t b) n' o v h =
      elim (Option-cases (handle_vote_response draw n f t b)) [
        | inl e ↦ absurd (ground arith)
        | inr (p, e) ↦ let kept = vote_reply-IsSelfVoted f t b p v e in ground arith
      ]
  react-IsSelfVoted (append_reply f t b i) n' o v h =
      elim (Option-cases (handle_append_response draw n f t b i)) [
        | inl e ↦ absurd (ground arith)
        | inr (p, e) ↦ let kept = append_reply-IsSelfVoted f t b i p v e in ground arith
      ]
  react-IsSelfVoted (time_input ms) n' o v h = elim (Option-cases (tick draw n ms)) [
    | inl e ↦ absurd (ground arith)
    | inr (p, e) ↦ let kept = time_input-IsSelfVoted ms p.0 p.1 v e in ground arith
  ]
  react-IsSelfVoted (command_input c) n' o v h = elim (Option-cases (client_request n c)) [
    | inl e ↦ absurd (ground arith)
    | inr (p, e) ↦ let kept = command_input-IsSelfVoted c p.0 p.1 v e in ground arith
  ]
