-- ===== src/Replication/Late.antt =====
-- What leader-follower-replication/replication.py does not keep: followers that are registered late,
-- and sessions whose followers have fallen behind.
use ddia_implementations.Prelude.{
  ℕ, ◌<◌, String, List, string_key, [], ◌∷◌, ◌≡◌, ◌≢◌, refl, true, some, none, Option, Option-cases,
  arith, All, inl, inr, false,
}
use ddia_implementations.Dict
use ddia_implementations.Dict.{Dict, get-put}
use ddia_implementations.Replication.Follower
use ddia_implementations.Replication.Leader
use ddia_implementations.Replication.Session
use ddia_implementations.Replication.Follower.{FollowerNode, apply_entry, put_op}
use ddia_implementations.Replication.Leader.{
  System, Mode, LeaderNode, add_follower, current_lsn, next_entry,
}
use ddia_implementations.Replication.Feeding.{get-propagate_all, fed}
use ddia_implementations.Replication.Session.{find_fresh, most_caught_up, better}

module _ {V : Type 0} where
  abbrev pub register : System V → String → Mode → System V
  register s id mode = record s { leader = add_follower s.leader id mode }

  pub late_follower_misses :
      (s : System V) (id : String) (mode : Mode) (key other : String) (value old : V)
      → Dict.get s.nodes id ≡ some Follower.init
      → Dict.get s.leader.contents other ≡ some old
      → key ≢ other
      → 0 < s.leader.next_lsn
      → (n : FollowerNode V) × ((Dict.get (Leader.put (register s id mode) key value).0.nodes id
            ≡ some n)
          × ((n.applied_lsn ≡ current_lsn (Leader.put (register s id mode) key value).0.leader)
              × ((Follower.get n other ≡ none)
                  × (Leader.get (Leader.put (register s id mode) key value).0.leader other
                      ≡ some old))))
  unfolding Leader.put Follower.get Leader.get current_lsn add_follower apply_entry
  late_follower_misses s id mode key other value old g h ne p =
      let e = next_entry s.leader key (put_op value) in
      let after =
        get-propagate_all (record { nodes = s.nodes; follower_failed = false; acked = false }) e
          (Dict.put s.leader.followers id mode) id Follower.init g in
      (
        fed Follower.init e,
        (
          ground (arith, after, get-put s.leader.followers id mode id),
          (
            ground arith,
            (
              ground (arith, get-put [] key value other, Dict.get-empty {V = V} other),
              ground (arith, get-put s.leader.contents key value other),
            ),
          ),
        ),
      )

  find_fresh-none :
      (fs : List (FollowerNode V)) (seen : ℕ)
      → All (λ f. f.online ≡ true → f.applied_lsn < seen) fs
      → find_fresh fs seen ≡ none
  unfolding find_fresh
  find_fresh-none [] seen h = refl
  find_fresh-none (f ∷ fs) seen (h, hs) = ground (arith, find_fresh-none fs seen hs, h)

  better-lt :
      (best : Option (FollowerNode V)) (f : FollowerNode V) (seen : ℕ)
      → ((b : FollowerNode V) → best ≡ some b → b.applied_lsn < seen)
      → (f.online ≡ true → f.applied_lsn < seen)
      → (c : FollowerNode V) → better best f ≡ some c
      → c.applied_lsn < seen
  unfolding better
  better-lt none f seen h hf c q = ground arith
  better-lt (some b) f seen h hf c q = ground (arith, h b refl)

  most_caught_up-lt :
      (best : Option (FollowerNode V)) (fs : List (FollowerNode V)) (seen : ℕ) (b : FollowerNode V)
      → ((b : FollowerNode V) → best ≡ some b → b.applied_lsn < seen)
      → All (λ f. f.online ≡ true → f.applied_lsn < seen) fs
      → most_caught_up best fs ≡ some b
      → b.applied_lsn < seen
  unfolding most_caught_up
  most_caught_up-lt best [] seen b h hs e = h b e
  most_caught_up-lt best (f ∷ fs) seen b h (hf, hs) e =
      most_caught_up-lt (better best f) fs seen b (better-lt best f seen h hf) hs e

  -- A session can go back: when all followers that are online are behind what the session has
  -- seen, a read that returns sets the session's position back below it.
  pub read_goes_back :
      (fs : List (FollowerNode V)) (last_seen seen : ℕ) (key : String) (v : Option V)
      → All (λ f. f.online ≡ true → f.applied_lsn < last_seen) fs
      → Session.read fs last_seen key ≡ some (v, seen)
      → seen < last_seen
  unfolding Session.read
  read_goes_back fs last_seen seen key v h e = elim (Option-cases (most_caught_up none fs)) [
    | inl q ↦ ground (arith, find_fresh-none fs last_seen h)
    | inr (b, q) ↦ ground (
      arith,
      find_fresh-none fs last_seen h,
      most_caught_up-lt none fs last_seen b (λ c t. ground arith) h q,
    )
  ]
