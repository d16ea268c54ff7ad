-- ===== src/Raft/Commit.antt =====
-- The commit index that a leader of raft-consensus/raft.py computes from `match_index`.
use ddia_implementations.Prelude.{
  ℕ, zero, suc, ◌+◌, ◌≤◌, ◌<◌, ◌≡◌, arith, length, get_elem?, inl, inr, some, ◌⊎◌, List, true,
  Option-cases, refl, get_elem?-none, ℕ_discrete, Bool-cases, ◌-◌, subst, ◌==◌, ◌&&◌, nat_key,
}
use ddia_implementations.Raft.Node.{LogEntry, RaftNode, term_at, last_log_index}
use ddia_implementations.Raft.Replication.{advance_from, advance_commit_index, has_quorum}

-- `j` is the last index with `P` from `i` on, over `rounds` of them, if there is one.
pub record IsLatest (P : ℕ → Type 0) (rounds i old j : ℕ) : Type 0 where
  pub kept : (j ≡ old) ⊎ ((i ≤ j) × P j)
  pub most : (k : ℕ) → i ≤ k → k < i + rounds → P k → k ≤ j
  pub grows : old ≤ j

module _ {C : Type 0} where
  -- An entry that the leader may count as committed: of its term, and on a majority.
  abbrev pub IsCommittable : RaftNode C → ℕ → Type 0
  IsCommittable n i = (term_at n.log i ≡ some n.current_term) × (has_quorum n i ≡ true)

  term_at-some :
      (log : List (LogEntry C)) (i : ℕ) → i < length log → (t : ℕ) × (term_at log i ≡ some t)
  unfolding term_at
  term_at-some log i h = elim (Option-cases (get_elem? log i)) [
    | inl x ↦ absurd (omega (arith, get_elem?-none log i x))
    | inr (a, x) ↦ (a.term, rw x)
  ]

  -- one round of the loop, on an entry that does not count
  IsLatest-skip :
      (n : RaftNode C) (rounds i old j : ℕ)
      → (IsCommittable n i → ⊥)
      → IsLatest (IsCommittable n) rounds (suc i) old j
      → IsLatest (IsCommittable n) (suc rounds) i old j
  IsLatest-skip n rounds i old j not_i l = record {
    kept = ground (arith, l.kept);
    most = λ k a b c. elim (ℕ_discrete k i) [
      | yes e ↦ absurd (not_i (subst (λ x. IsCommittable n x) e c))
      | no e ↦ l.most k (omega arith) (omega arith) c
    ];
    grows = l.grows;
  }

  -- one round of the loop, on an entry that counts
  IsLatest-take :
      (n : RaftNode C) (rounds i old j : ℕ)
      → IsCommittable n i
      → old < i
      → IsLatest (IsCommittable n) rounds (suc i) i j
      → IsLatest (IsCommittable n) (suc rounds) i old j
  IsLatest-take n rounds i old j is_i low l = record {
    kept = inr (omega (arith, l.grows), elim l.kept [ inl e ↦ rw e is_i | inr (a, c) ↦ c ]);
    most = λ k a b c. elim (ℕ_discrete k i) [
      | yes e ↦ omega (arith, l.grows)
      | no e ↦ l.most k (omega arith) (omega arith) c
    ];
    grows = omega (arith, l.grows);
  }

  advance_from-IsLatest :
      (rounds i : ℕ) (n : RaftNode C)
      → i + rounds ≤ length n.log
      → n.commit_index < i
      → (n' : RaftNode C) × (advance_from rounds i n ≡ some n')
        × IsLatest (IsCommittable n) rounds i n.commit_index n'.commit_index
  unfolding advance_from
  advance_from-IsLatest zero i n room low = (
    n,
    refl,
    record { kept = inl refl; most = λ k a b c. absurd (omega arith); grows = omega arith },
  )
  advance_from-IsLatest (suc rounds) i n room low =
      let (t, at) = term_at-some n.log i (omega arith) in
      elim (Bool-cases ((t == n.current_term) && has_quorum n i)) [
        | inl counts ↦
            let (n', run, l) =
              advance_from-IsLatest rounds (suc i) (record n { commit_index = i }) (omega arith)
                (omega arith) in
            (
              n',
              rw (at, counts) run,
              IsLatest-take n rounds i n.commit_index n'.commit_index (ground arith, ground arith)
                  low l,
            )
        | inr skipped ↦
            let (n', run, l) = advance_from-IsLatest rounds (suc i) n (omega arith) (omega arith) in
            (
              n',
              rw (at, skipped) run,
              IsLatest-skip n rounds i n.commit_index n'.commit_index
                  (λ c. ground (arith, c.0, c.1)) l,
            )
      ]

  pub advance_commit_index-IsLatest :
      (n : RaftNode C) (last : ℕ)
      → last_log_index n ≡ some last
      → last < length n.log
      → n.commit_index ≤ last
      → (n' : RaftNode C) × (advance_commit_index n ≡ some n')
        × IsLatest
            (IsCommittable n)
            (last - n.commit_index)
            (n.commit_index + 1)
            n.commit_index
            n'.commit_index
  unfolding advance_commit_index
  advance_commit_index-IsLatest n last e room le = rw e (
      advance_from-IsLatest (last - n.commit_index) (n.commit_index + 1) n (omega arith)
        (omega arith))
