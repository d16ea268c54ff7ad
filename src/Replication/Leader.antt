-- ===== src/Replication/Leader.antt =====
-- `LeaderNode` of leader-follower-replication/replication.py. The leader and its callers share the
-- follower objects, so the followers stand beside the leader under their identifiers; the leader's
-- own dictionary says which are registered, and in which mode.
use ddia_implementations.Prelude.{
  ℕ, String, Bool, List, string_key, true, false, [], ◌∷◌, Option, none, some, if◌then◌else◌, ◌++◌,
  ◌-◌, ◌+◌, ◌&&◌, ◌==◌, ltb, length, not, drop,
}
use ddia_implementations.Dict
use ddia_implementations.Dict.{Dict}
use ddia_implementations.Replication.Follower
use ddia_implementations.Replication.Follower.{
  OpType, ReplicationLogEntry, FollowerNode, put_op, delete_op, apply_op, apply_entries,
}

pub data Mode : Type 0 where
  sync async semi_sync : Mode

pub record LeaderNode (V : Type 0) : Type 0 where
  pub contents : Dict String V
  pub log : List (ReplicationLogEntry V)
  pub next_lsn : ℕ
  pub followers : Dict String Mode
  pub log_retention : ℕ

pub record System (V : Type 0) : Type 0 where
  pub leader : LeaderNode V
  pub nodes : Dict String (FollowerNode V)

-- what the loop of `_propagate` carries
pub record Progress (V : Type 0) : Type 0 where
  pub nodes : Dict String (FollowerNode V)
  pub follower_failed : Bool
  pub acked : Bool

abbrev is_async : Mode → Bool
is_async async = true
is_async m = false

module _ {V : Type 0} where
  abbrev pub init : LeaderNode V
  init = record { contents = []; log = []; next_lsn = 1; followers = []; log_retention = 10_000 }

  -- one round of the loop of `_propagate`; a registered follower is always there
  unfoldable pub propagate_to : Progress V → ReplicationLogEntry V → String → Mode → Progress V
  propagate_to p e id mode = elim (Dict.get p.nodes id) [
    | none ↦ p
    | some n ↦
        let fed = if n.online then Dict.put p.nodes id (apply_entries n (e ∷ [])) else p.nodes in
        elim mode [
          | sync ↦ record p { nodes = fed }
          | async ↦ record p { nodes = fed }
          | semi_sync ↦
              if n.online
              then record p { nodes = fed; acked = true }
              else record p { follower_failed = true }
        ]
  ]

  unfoldable pub propagate_all : Progress V → ReplicationLogEntry V → Dict String Mode → Progress V
  unfolding propagate_to
  propagate_all p e [] = p
  propagate_all p e ((id, mode) ∷ followers) = propagate_all (propagate_to p e id mode) e followers

  -- one round of the loop for `best_id`, `best_lsn`; `none` stands for the start, -1
  unfoldable pub better_async :
      Dict String (FollowerNode V) → Option (String × ℕ) → String → Mode → Option (String × ℕ)
  better_async nodes best id mode = elim (Dict.get nodes id) [
    | none ↦ best
    | some n ↦
        if is_async mode && n.online && elim best [ none ↦ true | some b ↦ ltb b.1 n.applied_lsn ]
        then some (id, n.applied_lsn)
        else best
  ]

  unfoldable pub best_async :
      Dict String (FollowerNode V) → Option (String × ℕ) → Dict String Mode → Option (String × ℕ)
  unfolding better_async
  best_async nodes best [] = best
  best_async nodes best ((id, mode) ∷ followers) =
      best_async nodes (better_async nodes best id mode) followers

  unfoldable pub promote_async_to_semi_sync :
      Dict String (FollowerNode V) → Dict String Mode → Dict String Mode
  unfolding best_async
  promote_async_to_semi_sync nodes followers = elim (best_async nodes none followers) [
    | none ↦ followers
    | some b ↦ if b.0 == "" then followers else Dict.put followers b.0 semi_sync
  ]

  -- `self._log[-self._log_retention:]`, which is the whole log when the retention is 0
  unfoldable pub trim_log : ℕ → List (ReplicationLogEntry V) → List (ReplicationLogEntry V)
  trim_log retention log =
      if ltb retention (length log) && ltb 0 retention
      then drop (length log - retention) log
      else log

  -- the progress of `_propagate` at the end of its loop
  abbrev pub propagated : System V → ReplicationLogEntry V → Progress V
  propagated s e =
      propagate_all (record { nodes = s.nodes; follower_failed = false; acked = false }) e
        s.leader.followers

  abbrev pub next_entry : LeaderNode V → String → OpType V → ReplicationLogEntry V
  next_entry l key op = record { lsn = l.next_lsn; op_type = op; key = key }

  unfoldable pub finish_write : LeaderNode V → String → OpType V → Progress V → System V
  unfolding apply_op promote_async_to_semi_sync trim_log
  finish_write l key op p = record {
    leader = record l {
      log = trim_log l.log_retention (l.log ++ next_entry l key op ∷ []);
      next_lsn = l.next_lsn + 1;
      contents = apply_op l.contents key op;
      followers =
          if p.follower_failed && not p.acked
          then promote_async_to_semi_sync p.nodes l.followers
          else l.followers;
    };
    nodes = p.nodes;
  }

  -- `put` and `delete`: append, apply, propagate, trim
  unfoldable pub write : System V → String → OpType V → System V × ℕ
  unfolding propagate_all finish_write
  write s key op =
      (finish_write s.leader key op (propagated s (next_entry s.leader key op)), s.leader.next_lsn)

  unfoldable pub put : System V → String → V → System V × ℕ
  unfolding write
  put s key value = write s key (put_op value)

  unfoldable pub delete : System V → String → System V × ℕ
  unfolding write
  delete s key = write s key delete_op

  unfoldable pub get : LeaderNode V → String → Option V
  get l key = Dict.get l.contents key

  unfoldable pub add_follower : LeaderNode V → String → Mode → LeaderNode V
  add_follower l id mode = record l { followers = Dict.put l.followers id mode }

  unfoldable pub remove_follower : LeaderNode V → String → LeaderNode V
  remove_follower l id = record l { followers = Dict.remove l.followers id }

  unfoldable pub get_log_entries : List (ReplicationLogEntry V) → ℕ → List (ReplicationLogEntry V)
  get_log_entries [] after_lsn = []
  get_log_entries (e ∷ log) after_lsn =
      let rest = get_log_entries log after_lsn in if ltb after_lsn e.lsn then e ∷ rest else rest

  unfoldable pub current_lsn : LeaderNode V → ℕ
  current_lsn l = l.next_lsn - 1

  -- the calls on a follower
  unfoldable pub take_offline : System V → String → System V
  take_offline s id = elim (Dict.get s.nodes id) [
    | none ↦ s
    | some n ↦ record s { nodes = Dict.put s.nodes id (Follower.go_offline n) }
  ]

  unfoldable pub bring_online : System V → String → System V
  unfolding get_log_entries
  bring_online s id = elim (Dict.get s.nodes id) [
    | none ↦ s
    | some n ↦ record s {
      nodes =
          Dict.put s.nodes id (Follower.come_online n (get_log_entries s.leader.log n.applied_lsn));
    }
  ]

  unfoldable pub promote_to_leader : FollowerNode V → LeaderNode V
  promote_to_leader n = record init { contents = n.contents; next_lsn = n.applied_lsn + 1 }
