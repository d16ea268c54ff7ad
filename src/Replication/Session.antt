-- ===== src/Replication/Session.antt =====
-- `ReadSession` of leader-follower-replication/replication.py.
use ddia_implementations.Prelude.{
  ℕ, String, List, string_key, [], ◌∷◌, Option, none, some, if◌then◌else◌, ◌&&◌, ltb, leb,
}
use ddia_implementations.Dict
use ddia_implementations.Replication.Follower.{FollowerNode}

module _ {V : Type 0} where
  -- the first follower that is online and not behind the session
  unfoldable pub find_fresh : List (FollowerNode V) → ℕ → Option (FollowerNode V)
  find_fresh [] last_seen = none
  find_fresh (f ∷ fs) last_seen =
      let rest = find_fresh fs last_seen in
      if f.online && leb last_seen f.applied_lsn then some f else rest

  -- `max` of the online followers by their position: the first of the largest
  unfoldable pub better : Option (FollowerNode V) → FollowerNode V → Option (FollowerNode V)
  better none f = if f.online then some f else none
  better (some b) f = if f.online && ltb b.applied_lsn f.applied_lsn then some f else some b

  unfoldable pub most_caught_up :
      Option (FollowerNode V) → List (FollowerNode V) → Option (FollowerNode V)
  unfolding better
  most_caught_up best [] = best
  most_caught_up best (f ∷ fs) = most_caught_up (better best f) fs

  -- the answer and the new `_last_seen_lsn`; `none` stands for the `RuntimeError`
  unfoldable pub read : List (FollowerNode V) → ℕ → String → Option (Option V × ℕ)
  unfolding find_fresh most_caught_up
  read followers last_seen key = elim (find_fresh followers last_seen) [
    | some f ↦ some (Dict.get f.contents key, f.applied_lsn)
    | none ↦ elim (most_caught_up none followers) [
      | some best ↦ some (Dict.get best.contents key, best.applied_lsn)
      | none ↦ none
    ]
  ]
