-- ===== src/Raft/Vote/Frame.antt =====
-- What the log handling of a `RaftNode` leaves alone: its term, its vote, its role and its name.
use ddia_implementations.Prelude.{ℕ, zero, suc, ◌≡◌, Option, some, List, arith, nat_key}
use ddia_implementations.Raft.Node.{LogEntry, RaftNode}
use ddia_implementations.Raft.Replication.{
  AppendRequest, AppendReply, Message, advance_commit_index, advance_from, append_checked,
  client_request, heartbeat, drop_conflict, append_entries_from,
}

pub record SameVote {C : Type 0} (n n' : RaftNode C) : Type 0 where
  pub term : n'.current_term ≡ n.current_term
  pub vote : n'.voted_for ≡ n.voted_for
  pub role : n'.state ≡ n.state
  pub name : n'.node_id ≡ n.node_id

module _ {C : Type 0} where
  advance_from-SameVote :
      (rounds i : ℕ) (n : RaftNode C) (n' : RaftNode C)
      → advance_from rounds i n ≡ some n'
      → SameVote n n'
  unfolding advance_from
  advance_from-SameVote zero i n n' h = ground arith
  advance_from-SameVote (suc rounds) i n n' h = ground (
    arith,
    advance_from-SameVote rounds (suc i) n n',
    advance_from-SameVote rounds (suc i) (record n { commit_index = i }) n',
  )

  pub advance_commit_index-SameVote :
      (n : RaftNode C) (n' : RaftNode C) → advance_commit_index n ≡ some n' → SameVote n n'
  unfolding advance_commit_index
  advance_commit_index-SameVote n n' h = grind (arith, advance_from-SameVote)

  pub append_checked-SameVote :
      (n : RaftNode C) (m : AppendRequest C) (n' : RaftNode C) (r : AppendReply)
      → append_checked n m ≡ some (n', r)
      → SameVote n n'
  unfolding append_checked drop_conflict append_entries_from
  append_checked-SameVote n m n' r h = ground arith

  pub client_request-SameVote :
      (n : RaftNode C) (c : C) (n' : RaftNode C) (r : Option (LogEntry C))
      → client_request n c ≡ some (n', r)
      → SameVote n n'
  unfolding client_request
  client_request-SameVote n c n' r h = ground arith

  pub heartbeat-SameVote :
      (n : RaftNode C) (ms : ℕ) (n' : RaftNode C) (r : List (Message C))
      → heartbeat n ms ≡ some (n', r)
      → SameVote n n'
  unfolding heartbeat
  heartbeat-SameVote n ms n' r h =
      ground (arith, advance_commit_index-SameVote (record n { heartbeat_timer = 0 }) n')
