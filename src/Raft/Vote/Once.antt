-- ===== src/Raft/Vote/Once.antt =====
-- A node grants its vote to one candidate in a term.
use ddia_implementations.Raft.Vote.Own.{IsSelfVoted, react-IsSelfVoted}
use ddia_implementations.Raft.Vote.Frame.{
  append_checked-SameVote, advance_commit_index-SameVote, heartbeat-SameVote,
  client_request-SameVote,
}
use ddia_implementations.Prelude.{
  ℕ, ◌≤◌, String, ◌≡◌, false, some, arith, nat_key, Option, Bool, List, ◌≢◌, true, Option-cases,
  ◌∷◌, ◌+◌, inl, All, inr, ◌∙◌, subst, [], string_key, none, refl,
}
use ddia_implementations.Dict
use ddia_implementations.Raft.Node.{
  RaftNode, LogEntry, reset_election_timer, init, is_log_up_to_date,
}
use ddia_implementations.Raft.Replication.{
  VoteReply, is_candidate, AppendRequest, AppendReply, Message, client_request,
}
use ddia_implementations.Raft.Handlers.{
  handle_request_vote, handle_append_entries, handle_vote_response, handle_append_response, tick,
  step_down,
}
use ddia_implementations.Raft.Vote.{
  Grant, Input, react, vote_input, append_input, vote_reply, append_reply, time_input,
  command_input, react_all,
}

-- A vote of the past binds the node: it is not of a later term, and in its term the node still
-- stands by it and is no candidate.
pub record Binds {C : Type 0} (n : RaftNode C) (g : Grant) : Type 0 where
  pub past : g.0 ≤ n.current_term
  pub same : g.0 ≡ n.current_term → n.voted_for ≡ some g.1
  pub idle : g.0 ≡ n.current_term → is_candidate n.state ≡ false

module _ {C : Type 0} (draw : String → ℕ → ℕ) (n : RaftNode C) (g : Grant) (b : Binds n g) where
  Binds-request_vote :
      (c : String) (t li lt : ℕ) (n' : RaftNode C) (r : VoteReply)
      → handle_request_vote draw n c t li lt ≡ some (n', r)
      → Binds n' g
  unfolding handle_request_vote
  Binds-request_vote c t li lt n' r h = ground (arith, b.same, b.idle)

  Binds-append_entries :
      (m : AppendRequest C) (n' : RaftNode C) (r : AppendReply)
      → handle_append_entries draw n m ≡ some (n', r)
      → Binds n' g
  unfolding handle_append_entries
  Binds-append_entries m n' r h = ground (
    arith,
    b.same,
    b.idle,
    append_checked-SameVote (reset_election_timer draw (step_down draw n m.term)) m n' r,
  )

  Binds-vote_response :
      (f : String) (t : ℕ) (v : Bool) (n' : RaftNode C)
      → handle_vote_response draw n f t v ≡ some n'
      → Binds n' g
  unfolding handle_vote_response
  Binds-vote_response f t v n' h = ground (arith, b.same, b.idle)

  Binds-append_response :
      (f : String) (t : ℕ) (v : Bool) (i : ℕ) (n' : RaftNode C)
      → handle_append_response draw n f t v i ≡ some n'
      → Binds n' g
  unfolding handle_append_response
  Binds-append_response f t v i n' h = ground (
    arith,
    b.same,
    b.idle,
    advance_commit_index-SameVote
        (record n {
          next_index = Dict.put n.next_index f (i + 1);
          match_index = Dict.put n.match_index f i;
        })
        n',
  )

  Binds-tick :
      (ms : ℕ) (n' : RaftNode C) (r : List (Message C)) → tick draw n ms ≡ some (n', r) → Binds n' g
  unfolding tick
  Binds-tick ms n' r h = ground (arith, b.same, b.idle, heartbeat-SameVote n ms n' r)

  Binds-client_request :
      (c : C) (n' : RaftNode C) (r : Option (LogEntry C))
      → client_request n c ≡ some (n', r)
      → Binds n' g
  Binds-client_request c n' r h = ground (arith, b.same, b.idle, client_request-SameVote n c n' r)

-- All votes of the list for one term name one candidate.
abbrev pub OneVote : List Grant → Type 0
OneVote [] = Unit
OneVote (g ∷ gs) = All (λ h. h.0 ≡ g.0 → h.1 ≡ g.1) gs × OneVote gs

module _ {C : Type 0} (draw : String → ℕ → ℕ) where
  -- a request for the node's own candidacy does not come from a peer
  abbrev pub IsFromPeer : String → Input C → Type 0
  IsFromPeer name (vote_input c t li lt) = c ≢ name
  IsFromPeer name _ = Unit

  react-Binds :
      (n : RaftNode C) (i : Input C) (n' : RaftNode C) (o : Option Grant)
      → react draw n i ≡ some (n', o)
      → (g : Grant) → Binds n g
      → Binds n' g
  unfolding react
  react-Binds n (vote_input c t li lt) n' o h g b =
      elim (Option-cases (handle_request_vote draw n c t li lt)) [
        | inl e ↦ absurd (ground arith)
        | inr (p, e) ↦ let kept = Binds-request_vote draw n g b c t li lt p.0 p.1 e in ground arith
      ]
  react-Binds n (append_input m) n' o h g b = elim (Option-cases (handle_append_entries draw n m)) [
    | inl e ↦ absurd (ground arith)
    | inr (p, e) ↦ let kept = Binds-append_entries draw n g b m p.0 p.1 e in ground arith
  ]
  react-Binds n (vote_reply f t v) n' o h g b =
      elim (Option-cases (handle_vote_response draw n f t v)) [
        | inl e ↦ absurd (ground arith)
        | inr (p, e) ↦ let kept = Binds-vote_response draw n g b f t v p e in ground arith
      ]
  react-Binds n (append_reply f t v i) n' o h g b =
      elim (Option-cases (handle_append_response draw n f t v i)) [
        | inl e ↦ absurd (ground arith)
        | inr (p, e) ↦ let kept = Binds-append_response draw n g b f t v i p e in ground arith
      ]
  react-Binds n (time_input ms) n' o h g b = elim (Option-cases (tick draw n ms)) [
    | inl e ↦ absurd (ground arith)
    | inr (p, e) ↦ let kept = Binds-tick draw n g b ms p.0 p.1 e in ground arith
  ]
  react-Binds n (command_input c) n' o h g b = elim (Option-cases (client_request n c)) [
    | inl e ↦ absurd (ground arith)
    | inr (p, e) ↦ let kept = Binds-client_request draw n g b c p.0 p.1 e in ground arith
  ]

  react-grants :
      (name : String) (n : RaftNode C) (i : Input C) (n' : RaftNode C) (g : Grant)
      → IsFromPeer name i
      → IsSelfVoted name n
      → react draw n i ≡ some (n', some g)
      → Binds n' g × (g.0 ≡ n'.current_term)
  unfolding react handle_request_vote
  react-grants name n (vote_input c t li lt) n' g p v h = ground (arith, v.own, v.named)
  react-grants name n (append_input m) n' g p v h = ground arith
  react-grants name n (vote_reply f t b) n' g p v h = ground arith
  react-grants name n (append_reply f t b i) n' g p v h = ground arith
  react-grants name n (time_input ms) n' g p v h = ground arith
  react-grants name n (command_input c) n' g p v h = ground arith

  Binds-agree :
      (n : RaftNode C) (g : Grant) (gs : List Grant)
      → Binds n g
      → g.0 ≡ n.current_term
      → All (Binds n) gs
      → All (λ h. h.0 ≡ g.0 → h.1 ≡ g.1) gs
  Binds-agree n g [] b now bs = tt
  Binds-agree n g (h ∷ gs) b now bs = (
    λ e.
        let (x, y) : (n.voted_for ≡ some g.1) × (n.voted_for ≡ some h.1) =
          (b.same now, bs.0.same (e ∙ now)) in
        cc,
    Binds-agree n g gs b now bs.1,
  )

  react-Binds-All :
      (n : RaftNode C) (i : Input C) (n' : RaftNode C) (o : Option Grant) (gs : List Grant)
      → react draw n i ≡ some (n', o)
      → All (Binds n) gs
      → All (Binds n') gs
  react-Binds-All n i n' o [] h bs = tt
  react-Binds-All n i n' o (g ∷ gs) h bs =
      (react-Binds n i n' o h g bs.0, react-Binds-All n i n' o gs h bs.1)

  react_all-OneVote :
      (name : String) (is : List (Input C)) (n : RaftNode C) (gs : List Grant) (n' : RaftNode C)
      (hs : List Grant)
      → All (IsFromPeer name) is
      → IsSelfVoted name n
      → All (Binds n) gs
      → OneVote gs
      → react_all draw n gs is ≡ some (n', hs)
      → OneVote hs
  unfolding react_all
  react_all-OneVote name [] n gs n' hs p v b one h = subst (λ x. OneVote x) (ground arith) one
  react_all-OneVote name (i ∷ is) n gs n' hs p v b one h = elim (Option-cases (react draw n i)) [
    | inl e ↦ absurd (ground arith)
    | inr ((n1, none), e) ↦
        react_all-OneVote name is n1 gs n' hs p.1 (react-IsSelfVoted draw name n i n1 none v e)
          (react-Binds-All n i n1 none gs e b) one (ground arith)
    | inr ((n1, some g), e) ↦
        let kept = react-Binds-All n i n1 (some g) gs e b in
        let (binds, now) = react-grants name n i n1 g p.0 v e in
        react_all-OneVote name is n1 (g ∷ gs) n' hs p.1
          (react-IsSelfVoted draw name n i n1 (some g) v e) (binds, kept)
          (Binds-agree n1 g gs binds now kept, one) (ground arith)
  ]

  -- A node that starts from `__init__` and gets any sequence of messages, replies, ticks and commands,
  -- where no vote request names the node itself as the candidate, grants its vote in `handle_request_vote`
  -- to at most one candidate in each term: any two votes for the same term name the same candidate.
  pub votes_once :
      (name : String) (peers : List String) (is : List (Input C)) {n' : RaftNode C}
      {hs : List Grant}
      → All (IsFromPeer name) is
      → react_all draw (init draw name peers) [] is ≡ some (n', hs)
      → OneVote hs
  unfolding init
  votes_once name peers is {n'} {hs} p h =
      react_all-OneVote name is (init draw name peers) [] n' hs p
        (record { own = λ q. cc; named = refl }) tt tt h

  forgets_vote :
      (n : RaftNode C) (m : AppendRequest C) (n' : RaftNode C) (r : AppendReply)
      → is_candidate n.state ≡ true
      → m.term ≡ n.current_term
      → handle_append_entries draw n m ≡ some (n', r)
      → (n'.voted_for ≡ none) × (n'.current_term ≡ n.current_term)
  unfolding handle_append_entries
  forgets_vote n m n' r cand same h =
      ground (
        arith,
        append_checked-SameVote (reset_election_timer draw (step_down draw n m.term)) m n' r,
      )

  pub candidate_forgets_vote :
      (n : RaftNode C) (m : AppendRequest C) (n' : RaftNode C) (r : AppendReply)
      → is_candidate n.state ≡ true
      → m.term ≡ n.current_term
      → handle_append_entries draw n m ≡ some (n', r)
      → (c : String) (li lt : ℕ) → is_log_up_to_date n' lt li ≡ some true
      → (n'' : RaftNode C) × (handle_request_vote draw n' c n.current_term li lt
          ≡ some (n'', record { term = n.current_term; vote_granted = true }))
  unfolding handle_request_vote
  candidate_forgets_vote n m n' r cand same h c li lt ok =
      let (free, now) = forgets_vote n m n' r cand same h in
      (reset_election_timer draw (record n' { voted_for = some c }), ground arith)
