-- ===== src/Quorum/Hints.antt =====
-- `deliver_hints` of leaderless-replication/dynamo.py, and the calls on a cluster.
use ddia_implementations.Prelude.{
  ◌>>=◌, none, some, ℕ, ◌+◌, String, Bool, List, string_key, Key, [], if◌then◌else◌, Option, ◌∷◌,
  false,
}
use ddia_implementations.Dict
use ddia_implementations.Dict.{Dict}
use ddia_implementations.Quorum.Replica.{ReplicaNode, Hint, write, update_node, add_hint}
use ddia_implementations.Quorum.Cluster.{
  put, get, set_node_available, anti_entropy_repair, DynamoCluster,
}

module _ {V : Type 0} where
  abbrev pub pop_hints : ReplicaNode V → ReplicaNode V
  pop_hints n = record n { hints = [] }

  -- one hint of the node `id`, whose target `t` is at hand: the replicas, and whether it is delivered
  unfoldable pub deliver_one :
      Dict String (ReplicaNode V)
      → String
      → ReplicaNode V
      → Hint V
      → Dict String (ReplicaNode V) × Bool
  deliver_one d id t h =
      if t.is_available
      then (
        Dict.put d h.target_node_id (write t h.key h.value h.version).0,
        (write t h.key h.value h.version).1,
      )
      else (update_node d id (add_hint h), false)

  -- the loop over the hints of one node; the count is `none` where a target is unknown (`KeyError`)
  unfoldable pub deliver_list :
      Dict String (ReplicaNode V) → String → List (Hint V) → Dict String (ReplicaNode V) × Option ℕ
  unfolding deliver_one
  deliver_list d id [] = (d, some 0)
  deliver_list d id (h ∷ hs) = elim (Dict.get d h.target_node_id) [
    | none ↦ (d, none)
    | some t ↦
        let (d', done) = deliver_one d id t h in
        let (d'', count) = deliver_list d' id hs in
        (d'', do n ← count; some (if done then n + 1 else n))
  ]

  -- the loop over the nodes
  unfoldable pub deliver_nodes :
      Dict String (ReplicaNode V) → List String → Dict String (ReplicaNode V) × Option ℕ
  unfolding deliver_list
  deliver_nodes d [] = (d, some 0)
  deliver_nodes d (id ∷ ids) = elim (Dict.get d id) [
    | none ↦ deliver_nodes d ids
    | some n ↦
        let (d', count) = deliver_list (Dict.put d id (pop_hints n)) id n.hints in
        elim count [
          | none ↦ (d', none)
          | some k ↦ let (d'', more) = deliver_nodes d' ids in (d'', do m ← more; some (k + m))
        ]
  ]

  unfoldable pub node_ids : Dict String (ReplicaNode V) → List String
  node_ids [] = []
  node_ids ((id, n) ∷ d) = id ∷ node_ids d

  unfoldable pub deliver_hints : DynamoCluster V → DynamoCluster V × Option ℕ
  unfolding deliver_nodes node_ids
  deliver_hints c =
      let (d, count) = deliver_nodes c.nodes (node_ids c.nodes) in (record c { nodes = d }, count)

-- the calls that change a cluster
pub data Call (V : Type 0) : Type 0 where
  put_call : String → V → Call V
  get_call : String → Call V
  available_call : String → Bool → Call V
  repair_call hints_call : Call V

module _ {V : Type 0} ⦃e : Key V⦄ where
  unfoldable pub serve : DynamoCluster V → Call V → DynamoCluster V
  unfolding put get set_node_available anti_entropy_repair deliver_hints
  serve c (put_call key value) = (put c key value).0
  serve c (get_call key) = (get c key).0
  serve c (available_call id available) = set_node_available c id available
  serve c repair_call = (anti_entropy_repair c).0
  serve c hints_call = (deliver_hints c).0

  unfoldable pub serve_all : DynamoCluster V → List (Call V) → DynamoCluster V
  unfolding serve
  serve_all c [] = c
  serve_all c (call ∷ calls) = serve_all (serve c call) calls
