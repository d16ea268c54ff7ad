-- ===== src/Raft/Append.antt =====
-- What `handle_append_entries` of raft-consensus/raft.py does to the log.
use ddia_implementations.Raft.Handlers.{handle_append_entries}
use ddia_implementations.Prelude.{
  ℕ, zero, suc, ◌+◌, ◌≤◌, ◌<◌, ◌≡◌, arith, length, get_elem?, length-take, length-append, [], inl,
  inr, Option, List, some, get_elem?-take, ◌∷◌, get_elem?-append, take, get_elem?-append_end, ◌∙◌,
  none, get_elem?-lt, get_elem?-none, Option-cases, refl, String, true,
}
use ddia_implementations.Raft.Node.{LogEntry, RaftNode, term_at}
use ddia_implementations.Raft.Replication.{place, place_all, AppendRequest, AppendReply}

module _ {C : Type 0} where
  -- the term of an entry, if there is one
  abbrev term_of : Option (LogEntry C) → Option ℕ
  term_of none = none
  term_of (some e) = some e.term

  place-before :
      (log : List (LogEntry C)) (pos : ℕ) (e : LogEntry C) (j : ℕ)
      → pos ≤ length log
      → j < pos
      → get_elem? (place log pos e) j ≡ get_elem? log j
  unfolding place
  place-before log pos e j h lt = ground (
    arith,
    get_elem?-take pos log j,
    get_elem?-append log (e ∷ []) j,
    get_elem?-append (take pos log) (e ∷ []) j,
    length-take pos log,
  )

  place-length :
      (log : List (LogEntry C)) (pos : ℕ) (e : LogEntry C)
      → pos ≤ length log
      → suc pos ≤ length (place log pos e)
  unfolding place
  place-length log pos e h = elim (Option-cases (get_elem? log pos)) [
    | inl x ↦ rw (x, place) (omega (arith, length-append log (e ∷ [])))
    | inr (a, x) ↦
        let lt = get_elem?-lt log pos a x in
        ground (arith, length-take pos log, length-append (take pos log) (e ∷ []))
  ]

  place-at :
      (log : List (LogEntry C)) (pos : ℕ) (e : LogEntry C)
      → pos ≤ length log
      → term_of (get_elem? (place log pos e) pos) ≡ some e.term
  unfolding place
  place-at log pos e h = ground (
    arith,
    length-take pos log,
    get_elem?-append_end log e pos,
    get_elem?-append_end (take pos log) e pos,
    get_elem?-none log pos,
  )

  pub place_all-before :
      (es log : List (LogEntry C)) (pos : ℕ) (j : ℕ)
      → pos ≤ length log
      → j < pos
      → get_elem? (place_all log pos es) j ≡ get_elem? log j
  unfolding place_all
  place_all-before [] log pos j h lt = refl
  place_all-before (e ∷ es) log pos j h lt =
      place_all-before es (place log pos e) (suc pos) j (place-length log pos e h) (omega arith)
      ∙ place-before log pos e j h lt

  pub place_all-at :
      (es log : List (LogEntry C)) (pos : ℕ) (k : ℕ)
      → pos ≤ length log
      → k < length es
      → term_of (get_elem? (place_all log pos es) (pos + k)) ≡ term_of (get_elem? es k)
  unfolding place_all
  place_all-at [] log pos k h lt = absurd (omega arith)
  place_all-at (e ∷ es) log pos zero h lt = ground (
    arith,
    place_all-before es (place log pos e) (suc pos) pos,
    place-length log pos e,
    place-at log pos e,
  )
  place_all-at (e ∷ es) log pos (suc k) h lt =
      ground (arith, place_all-at es (place log pos e) (suc pos) k, place-length log pos e)

  success-place_all :
      (draw : String → ℕ → ℕ) (n : RaftNode C) (m : AppendRequest C) (n' : RaftNode C)
      (r : AppendReply)
      → handle_append_entries draw n m ≡ some (n', r)
      → r.success ≡ true
      → (n'.log ≡ place_all n.log (m.prev_log_index + 1) m.entries)
        × (term_at n.log m.prev_log_index ≡ some m.prev_log_term)
  unfolding handle_append_entries
  success-place_all draw n m n' r h ok = ground arith

  term_at-lt : (log : List (LogEntry C)) (i t : ℕ) → term_at log i ≡ some t → i < length log
  unfolding term_at
  term_at-lt log i t h = elim (Option-cases (get_elem? log i)) [
    | inl x ↦ absurd (ground arith)
    | inr (a, x) ↦ get_elem?-lt log i a x
  ]

  term_at-term_of : (log : List (LogEntry C)) (i : ℕ) → term_at log i ≡ term_of (get_elem? log i)
  unfolding term_at
  term_at-term_of log i = ground arith

  pub handle_append_entries-success :
      (draw : String → ℕ → ℕ) (n : RaftNode C) (m : AppendRequest C) (n' : RaftNode C)
      (r : AppendReply)
      → handle_append_entries draw n m ≡ some (n', r)
      → r.success ≡ true
      → (j k : ℕ) → j ≤ m.prev_log_index
      → k < length m.entries
      → (term_at n.log m.prev_log_index ≡ some m.prev_log_term)
        × (get_elem? n'.log j ≡ get_elem? n.log j)
        × (term_at n'.log (m.prev_log_index + 1 + k) ≡ term_at m.entries k)
  handle_append_entries-success draw n m n' r h ok j k le lt =
      let (placed, found) = success-place_all draw n m n' r h ok in
      let room : m.prev_log_index + 1 ≤ length n.log =
        omega (arith, term_at-lt n.log m.prev_log_index m.prev_log_term found) in
      (
        found,
        rw placed (place_all-before m.entries n.log (m.prev_log_index + 1) j room (omega arith)),
        rw (placed, term_at-term_of, term_at-term_of)
            (place_all-at m.entries n.log (m.prev_log_index + 1) k room lt),
      )
