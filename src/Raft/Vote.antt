-- ===== src/Raft/Vote.antt =====
-- The votes that a `RaftNode` grants: one candidate in a term.
pub mod Frame
pub mod Own
pub mod Once
use ddia_implementations.Prelude.{
  ◌>>=◌, subst, sym, ap, ℕ, ◌+◌, ◌≤◌, ◌<◌, String, ◌≡◌, ◌≢◌, refl, Bool, true, false, Option, none,
  some, List, [], ◌∷◌, arith, All, Option-cases, inl, inr, if◌then◌else◌,
}
use ddia_implementations.Raft.Node.{
  LogEntry, RaftNode, become_follower, become_candidate, become_leader, reset_election_timer,
}
use ddia_implementations.Raft.Replication.{
  AppendRequest, VoteReply, is_candidate, advance_commit_index, advance_from, append_checked,
  client_request, heartbeat,
}
use ddia_implementations.Raft.Handlers.{
  handle_request_vote, handle_append_entries, handle_vote_response, handle_append_response, tick,
  step_down,
}

-- What reaches a node: a message, a reply, the time, a command.
pub data Input (C : Type 0) : Type 0 where
  vote_input : String → ℕ → ℕ → ℕ → Input C
  append_input : AppendRequest C → Input C
  vote_reply : String → ℕ → Bool → Input C
  append_reply : String → ℕ → Bool → ℕ → Input C
  time_input : ℕ → Input C
  command_input : C → Input C

-- the term and the candidate of a vote
abbrev pub Grant : Type 0
Grant = ℕ × String

abbrev pub granted : VoteReply → String → Option Grant
granted reply c = if reply.vote_granted then some (reply.term, c) else none

abbrev pub cons_grant : Option Grant → List Grant → List Grant
cons_grant none gs = gs
cons_grant (some g) gs = g ∷ gs

module _ {C : Type 0} (draw : String → ℕ → ℕ) where
  -- one input: the node afterwards, and the vote that it grants in reply
  unfoldable pub react : RaftNode C → Input C → Option (RaftNode C × Option Grant)
  react n (vote_input c t li lt) = do
    (n', reply) ← handle_request_vote draw n c t li lt
    some (n', granted reply c)
  react n (append_input m) = do (n', _) ← handle_append_entries draw n m; some (n', none)
  react n (vote_reply f t g) = do n' ← handle_vote_response draw n f t g; some (n', none)
  react n (append_reply f t s i) = do n' ← handle_append_response draw n f t s i; some (n', none)
  react n (time_input ms) = do (n', _) ← tick draw n ms; some (n', none)
  react n (command_input c) = do (n', _) ← client_request n c; some (n', none)

  -- a sequence of inputs, with the votes granted, the latest first, before those of `gs`
  unfoldable pub react_all :
      RaftNode C → List Grant → List (Input C) → Option (RaftNode C × List Grant)
  react_all n gs [] = some (n, gs)
  react_all n gs (i ∷ is) = do (n', g) ← react n i; react_all n' (cons_grant g gs) is
