-- ===== src/Quorum/Cluster.antt =====
-- `DynamoCluster` of leaderless-replication/dynamo.py, over values with an equality test.
use ddia_implementations.Prelude.{
  ℕ, ◌+◌, String, Bool, List, string_key, Key, ◌∷◌, [], Option, if◌then◌else◌, none, get_or, some,
  ltb, ◌++◌, false, ◌-◌, length,
}
use ddia_implementations.Dict
use ddia_implementations.Dict.{Dict}
use ddia_implementations.Sets
use ddia_implementations.Quorum.Replica
use ddia_implementations.Quorum.Replica.{
  update_node, ReplicaNode, VersionedValue, Hint, read, responses, write_all, repair_all,
  max_version, available_count, at_version, add_hint, set_available,
}

pub record DynamoCluster (V : Type 0) : Type 0 where
  pub w : ℕ
  pub r : ℕ
  pub sloppy_quorum : Bool
  pub nodes : Dict String (ReplicaNode V)
  pub version_counters : Dict String ℕ

-- the value of a `ReadResult`: None, one value, or the list of the values in conflict
pub data Found (V : Type 0) : Type 0 where
  nothing : Found V
  one : V → Found V
  several : List V → Found V

pub record ReadResult (V : Type 0) : Type 0 where
  pub value : Found V
  pub version : ℕ
  pub is_conflict : Bool
  pub replicas_repaired : ℕ

module _ {V : Type 0} where
  unfoldable pub make_nodes :
      Dict String (ReplicaNode V) → List String → Dict String (ReplicaNode V)
  make_nodes d [] = d
  make_nodes d (id ∷ ids) = make_nodes (Dict.put d id (Replica.init id)) ids

  -- the identifiers `node_0`, `node_1`, … are given
  unfoldable pub init : List String → ℕ → ℕ → Bool → DynamoCluster V
  unfolding make_nodes
  init ids write_quorum read_quorum sloppy = record {
    w = write_quorum;
    r = read_quorum;
    sloppy_quorum = sloppy;
    nodes = make_nodes [] ids;
    version_counters = [];
  }

  unfoldable pub unavailable_ids : Dict String (ReplicaNode V) → List String
  unavailable_ids [] = []
  unavailable_ids ((id, n) ∷ d) =
      let rest = unavailable_ids d in if n.is_available then rest else id ∷ rest

  -- `available_nodes[0]`
  unfoldable pub first_available : Dict String (ReplicaNode V) → Option String
  first_available [] = none
  first_available ((id, n) ∷ d) =
      let rest = first_available d in if n.is_available then some id else rest

  unfoldable pub add_hints :
      Dict String (ReplicaNode V)
      → Option String
      → String
      → V
      → ℕ
      → List String
      → Dict String (ReplicaNode V)
  unfolding update_node
  add_hints d holder key value version [] = d
  add_hints d holder key value version (target ∷ targets) =
      add_hints
        (elim holder [
          | none ↦ d
          | some id ↦ update_node d id (
              add_hint
                (record { key = key; value = value; version = version; target_node_id = target }))
        ])
        holder key value version targets

  -- `none` stands for `QuorumNotMet`, after which the replicas keep what was written
  unfoldable pub put : DynamoCluster V → String → V → DynamoCluster V × Option ℕ
  unfolding add_hints
  put c key value =
      let version = get_or (Dict.get c.version_counters key) 0 + 1 in
      let counters = Dict.put c.version_counters key version in
      let (nodes, acks) = write_all c.nodes key value version in
      if ltb acks c.w
      then (
        record c { nodes = nodes; version_counters = Dict.put counters key (version - 1) },
        none,
      )
      else (
        record c {
          nodes =
              if c.sloppy_quorum
              then add_hints nodes (first_available nodes) key value version (unavailable_ids nodes)
              else nodes;
          version_counters = counters;
        },
        some version,
      )

  -- `none` stands for `QuorumNotMet`
  unfoldable pub set_node_available : DynamoCluster V → String → Bool → DynamoCluster V
  set_node_available c id available = record c {
    nodes = update_node c.nodes id (set_available available);
  }

  unfoldable pub store_keys : Dict String (VersionedValue V) → List String
  store_keys [] = []
  store_keys ((k, v) ∷ d) = k ∷ store_keys d

  unfoldable pub all_keys : Dict String (ReplicaNode V) → List String
  unfolding store_keys
  all_keys [] = []
  all_keys ((id, n) ∷ d) =
      let rest = all_keys d in if n.is_available then Sets.union (store_keys n.store) rest else rest

  -- the loop for `best`
  unfoldable pub best_of :
      Dict String (ReplicaNode V) → String → Option (VersionedValue V) → Option (VersionedValue V)
  best_of [] key best = best
  best_of ((id, n) ∷ d) key best = best_of d key (elim (read n key) [
    | none ↦ best
    | some v ↦ elim best [
      | none ↦ some v
      | some b ↦ if ltb b.version v.version then some v else some b
    ]
  ])

  unfoldable pub repair_keys :
      Dict String (ReplicaNode V) → List String → Dict String (ReplicaNode V) × ℕ
  unfolding best_of
  repair_keys d [] = (d, 0)
  repair_keys d (key ∷ keys) = elim (best_of d key none) [
    | none ↦ repair_keys d keys
    | some best ↦
        let (d', repairs) = repair_all d key best.value best.version in
        let (d'', more) = repair_keys d' keys in (d'', repairs + more)
  ]

  unfoldable pub anti_entropy_repair : DynamoCluster V → DynamoCluster V × ℕ
  unfolding repair_keys all_keys
  anti_entropy_repair c =
      let (d, repairs) = repair_keys c.nodes (all_keys c.nodes) in (record c { nodes = d }, repairs)

module _ {V : Type 0} ⦃e : Key V⦄ where
  -- the loop for `distinct_values`
  unfoldable pub distinct : List V → List (VersionedValue V) → List V
  distinct vals [] = vals
  distinct vals (v ∷ vs) =
      distinct (if Sets.member v.value vals then vals else vals ++ v.value ∷ []) vs

  abbrev pub found : List V → Found V
  found [] = nothing
  found (x ∷ []) = one x
  found (x ∷ y ∷ ys) = several (x ∷ y ∷ ys)

  abbrev pub get_from :
      DynamoCluster V
      → String
      → ℕ
      → List (VersionedValue V)
      → DynamoCluster V × Option (ReadResult V)
  get_from c key newest [] = (
    c,
    some (record { value = nothing; version = 0; is_conflict = false; replicas_repaired = 0 }),
  )
  get_from c key newest (v ∷ vs) =
      let values = distinct [] (v ∷ vs) in
      let (nodes, repaired) = repair_all c.nodes key v.value newest in
      (
        record c { nodes = nodes },
        some (record {
          value = found values;
          version = newest;
          is_conflict = ltb 1 (length values);
          replicas_repaired = repaired;
        }),
      )

  -- `none` stands for `QuorumNotMet`
  unfoldable pub get : DynamoCluster V → String → DynamoCluster V × Option (ReadResult V)
  unfolding distinct
  get c key =
      let rs = responses c.nodes key in
      let newest = max_version rs in
      if ltb (available_count c.nodes) c.r
      then (c, none)
      else get_from c key newest (at_version newest rs)
