-- ===== src/Replication/Replay.antt =====
-- The abstract view of leader-follower-replication/replication.py: one history of operations, of
-- which each follower has a first part.
use ddia_implementations.Replication.Leader.{get_log_entries}
use ddia_implementations.Prelude.{
  ℕ, zero, suc, ◌+◌, String, List, string_key, [], ◌∷◌, ◌≡◌, refl, length, take, drop, ◌++◌, ap,
  arith, ◌∙◌, ◌<◌,
}
use ddia_implementations.Dict.{Dict}
use ddia_implementations.Replication.Follower.{
  OpType, ReplicationLogEntry, FollowerNode, apply_op, apply_from, apply_entry,
}

module _ {V : Type 0} where
  unfoldable pub replay : Dict String V → List (String × OpType V) → Dict String V
  replay d [] = d
  replay d ((key, op) ∷ h) = replay (apply_op d key op) h

  -- the entries of a history, numbered from `n`
  unfoldable pub entries : ℕ → List (String × OpType V) → List (ReplicationLogEntry V)
  entries n [] = []
  entries n ((key, op) ∷ h) = record { lsn = n; op_type = op; key = key } ∷ entries (n + 1) h

  -- a table that has the first `n` operations
  abbrev pub at_lsn : List (String × OpType V) → ℕ → Dict String V
  at_lsn h n = replay [] (take n h)

  pub replay-append :
      (d : Dict String V) (h g : List (String × OpType V))
      → replay d (h ++ g) ≡ replay (replay d h) g
  unfolding replay
  replay-append d [] g = refl
  replay-append d ((k, op) ∷ h) g = replay-append (apply_op d k op) h g

  pub entries-append :
      (n : ℕ) (h g : List (String × OpType V))
      → entries n (h ++ g) ≡ entries n h ++ entries (n + length h) g
  unfolding entries
  entries-append n [] g = ap (λ m. entries m g) (omega arith)
  entries-append n ((k, op) ∷ h) g =
      ap (λ t. record { lsn = n; op_type = op; key = k } ∷ t)
        (entries-append (n + 1) h g ∙ ap (λ m. entries (n + 1) h ++ entries m g) (omega arith))

  pub length-entries : (n : ℕ) (h : List (String × OpType V)) → length (entries n h) ≡ length h
  unfolding entries
  length-entries n [] = refl
  length-entries n ((k, op) ∷ h) = ap suc (length-entries (n + 1) h)

  pub drop-entries :
      (n i : ℕ) (h : List (String × OpType V)) → drop i (entries n h) ≡ entries (n + i) (drop i h)
  unfolding entries
  drop-entries n zero h = ap (λ m. entries m h) (omega arith)
  drop-entries n (suc i) [] = refl
  drop-entries n (suc i) ((k, op) ∷ h) =
      drop-entries (n + 1) i h ∙ ap (λ m. entries m (drop i h)) (omega arith)

  get_log_entries-all :
      (n i : ℕ) (h : List (String × OpType V))
      → i < n
      → get_log_entries (entries n h) i ≡ entries n h
  unfolding entries get_log_entries
  get_log_entries-all n i [] l = refl
  get_log_entries-all n i ((k, op) ∷ h) l = ground (arith, get_log_entries-all (n + 1) i h)

  -- the entries after a position, of a log that still has them
  pub get_log_entries-entries :
      (n i j : ℕ) (h : List (String × OpType V))
      → n + j ≡ i + 1
      → get_log_entries (entries n h) i ≡ entries (i + 1) (drop j h)
  unfolding entries get_log_entries
  get_log_entries-entries n i zero h e =
      get_log_entries-all n i h (omega arith) ∙ ap (λ m. entries m h) (omega arith)
  get_log_entries-entries n i (suc j) [] e = refl
  get_log_entries-entries n i (suc j) ((k, op) ∷ h) e =
      ground (arith, get_log_entries-entries (n + 1) i j h)

  -- a follower that has the first part of a history applies the entries that follow
  pub apply_from-entries :
      (n : FollowerNode V) (m : ℕ) (h : List (String × OpType V))
      → m ≡ n.applied_lsn + 1
      → apply_from n (entries m h)
        ≡ record n { contents = replay n.contents h; applied_lsn = n.applied_lsn + length h }
  unfolding apply_from apply_entry entries replay
  apply_from-entries n m [] e = ground arith
  apply_from-entries n m ((k, op) ∷ h) e = ground (
    arith,
    apply_from-entries (record n { contents = apply_op n.contents k op; applied_lsn = m }) (m + 1)
        h,
  )
