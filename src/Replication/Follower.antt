-- ===== src/Replication/Follower.antt =====
-- `ReplicationLogEntry` and `FollowerNode` of leader-follower-replication/replication.py, over any
-- type of values. The time stamp of an entry, which nothing reads, is left out.
use ddia_implementations.Prelude.{
  ℕ, String, Bool, List, string_key, true, false, [], ◌∷◌, Option, if◌then◌else◌, leb,
}
use ddia_implementations.Dict
use ddia_implementations.Dict.{Dict}

pub data OpType (V : Type 0) : Type 0 where
  put_op : V → OpType V
  delete_op : OpType V

pub record ReplicationLogEntry (V : Type 0) : Type 0 where
  pub lsn : ℕ
  pub op_type : OpType V
  pub key : String

pub record FollowerNode (V : Type 0) : Type 0 where
  pub contents : Dict String V
  pub applied_lsn : ℕ
  pub online : Bool

module _ {V : Type 0} where
  abbrev pub init : FollowerNode V
  init = record { contents = []; applied_lsn = 0; online = true }

  -- what an entry does to a table, at the leader and at a follower
  unfoldable pub apply_op : Dict String V → String → OpType V → Dict String V
  apply_op d key (put_op value) = Dict.put d key value
  apply_op d key delete_op = Dict.remove d key

  unfoldable pub apply_entry : FollowerNode V → ReplicationLogEntry V → FollowerNode V
  unfolding apply_op
  apply_entry n e =
      if leb e.lsn n.applied_lsn
      then n
      else record n { contents = apply_op n.contents e.key e.op_type; applied_lsn = e.lsn }

  -- the loop of `apply_entries`
  unfoldable pub apply_from : FollowerNode V → List (ReplicationLogEntry V) → FollowerNode V
  unfolding apply_entry
  apply_from n [] = n
  apply_from n (e ∷ es) = apply_from (apply_entry n e) es

  unfoldable pub apply_entries : FollowerNode V → List (ReplicationLogEntry V) → FollowerNode V
  unfolding apply_from
  apply_entries n entries = if n.online then apply_from n entries else n

  unfoldable pub go_offline : FollowerNode V → FollowerNode V
  go_offline n = record n { online = false }

  -- `come_online` with the entries that the leader has after `applied_lsn`
  unfoldable pub come_online : FollowerNode V → List (ReplicationLogEntry V) → FollowerNode V
  unfolding apply_entries
  come_online n entries = apply_entries (record n { online = true }) entries

  unfoldable pub get : FollowerNode V → String → Option V
  get n key = Dict.get n.contents key
