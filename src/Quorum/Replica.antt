-- ===== src/Quorum/Replica.antt =====
-- `ReplicaNode` of leaderless-replication/dynamo.py, and the loops of the cluster over its replicas.
use ddia_implementations.Prelude.{
  ℕ, ◌+◌, String, Bool, List, string_key, [], Option, if◌then◌else◌, ◌∷◌, ◌++◌, true, ◌&&◌, none,
  max, ◌==◌, some, false, nat_key, leb, ltb,
}
use ddia_implementations.Dict
use ddia_implementations.Dict.{Dict}

pub record VersionedValue (V : Type 0) : Type 0 where
  pub value : V
  pub version : ℕ
  pub node_id : String

pub record Hint (V : Type 0) : Type 0 where
  pub key : String
  pub value : V
  pub version : ℕ
  pub target_node_id : String

pub record ReplicaNode (V : Type 0) : Type 0 where
  pub node_id : String
  pub store : Dict String (VersionedValue V)
  pub is_available : Bool
  pub hints : List (Hint V)

module _ {V : Type 0} where
  abbrev pub init : String → ReplicaNode V
  init id = record { node_id = id; store = []; is_available = true; hints = [] }

  -- `current is None or version >= current.version`
  abbrev pub accepts : Option (VersionedValue V) → ℕ → Bool
  accepts none version = true
  accepts (some current) version = leb current.version version

  unfoldable pub write : ReplicaNode V → String → V → ℕ → ReplicaNode V × Bool
  write n key value version =
      if n.is_available && accepts (Dict.get n.store key) version
      then (
        record n {
          store =
              Dict.put n.store key
                (record { value = value; version = version; node_id = n.node_id });
        },
        true,
      )
      else (n, false)

  unfoldable pub read : ReplicaNode V → String → Option (VersionedValue V)
  read n key = if n.is_available then Dict.get n.store key else none

  -- the loop of `put`: the replicas after it, and `ack_count`
  unfoldable pub write_all :
      Dict String (ReplicaNode V) → String → V → ℕ → Dict String (ReplicaNode V) × ℕ
  unfolding write
  write_all [] key value version = ([], 0)
  write_all ((id, n) ∷ d) key value version =
      let (rest, acks) = write_all d key value version in
      let (n', done) = write n key value version in
      if n.is_available
      then ((id, n') ∷ rest, if done then acks + 1 else acks)
      else ((id, n) ∷ rest, acks)

  -- `current is None or current.version < max_version`
  abbrev pub is_stale : Option (VersionedValue V) → ℕ → Bool
  is_stale none version = true
  is_stale (some current) version = ltb current.version version

  -- the loop of `get`, and of `anti_entropy_repair`, that writes the newest value to stale
  -- replicas, and its count
  unfoldable pub repair_all :
      Dict String (ReplicaNode V) → String → V → ℕ → Dict String (ReplicaNode V) × ℕ
  unfolding write
  repair_all [] key value version = ([], 0)
  repair_all ((id, n) ∷ d) key value version =
      let (rest, repaired) = repair_all d key value version in
      if n.is_available && is_stale (Dict.get n.store key) version
      then ((id, (write n key value version).0) ∷ rest, repaired + 1)
      else ((id, n) ∷ rest, repaired)

  unfoldable pub available_count : Dict String (ReplicaNode V) → ℕ
  available_count [] = 0
  available_count ((id, n) ∷ d) =
      let rest = available_count d in if n.is_available then rest + 1 else rest

  unfoldable pub responses : Dict String (ReplicaNode V) → String → List (VersionedValue V)
  unfolding read
  responses [] key = []
  responses ((id, n) ∷ d) key =
      let rest = responses d key in elim (read n key) [ none ↦ rest | some v ↦ v ∷ rest ]

  unfoldable pub max_version : List (VersionedValue V) → ℕ
  max_version [] = 0
  max_version (v ∷ vs) = max v.version (max_version vs)

  -- `[r for r in responses if r.version == max_version]`
  unfoldable pub at_version : ℕ → List (VersionedValue V) → List (VersionedValue V)
  at_version m [] = []
  at_version m (v ∷ vs) = let rest = at_version m vs in if v.version == m then v ∷ rest else rest

  unfoldable pub update_node :
      Dict String (ReplicaNode V)
      → String
      → (ReplicaNode V → ReplicaNode V)
      → Dict String (ReplicaNode V)
  update_node d id f = elim (Dict.get d id) [ none ↦ d | some n ↦ Dict.put d id (f n) ]

  abbrev pub add_hint : Hint V → ReplicaNode V → ReplicaNode V
  add_hint h n = record n { hints = n.hints ++ h ∷ [] }

  abbrev pub set_available : Bool → ReplicaNode V → ReplicaNode V
  set_available available n = record n { is_available = available }
