-- ===== src/Gossip/Cluster.antt =====
-- `GossipCluster` of gossip-protocol/gossip_protocol.py. The random choice of a peer is an argument:
-- `pick` gives a number for a node, which chooses among its peers by the remainder. `none` is a
-- `KeyError`.
use ddia_implementations.Prelude.{
  ℕ, zero, suc, ◌+◌, String, Bool, false, List, [], ◌∷◌, Option, none, some, if◌then◌else◌,
  string_key, ◌==◌, ◌&&◌, not, ◌>>=◌, get_elem?, ◌%◌, length,
}
use ddia_implementations.Dict
use ddia_implementations.Sets
use ddia_implementations.Dict.{Dict}
use ddia_implementations.Gossip.Node
use ddia_implementations.Gossip.Node.{GossipNode, Membership, receive_gossip, join}

pub record GossipCluster : Type 0 where
  pub t_suspect : ℕ
  pub t_dead : ℕ
  pub t_cleanup : ℕ
  pub nodes : Dict String GossipNode
  pub failed_nodes : List String

abbrev pub Nodes : Type 0
Nodes = Dict String GossipNode

unfoldable pub init : ℕ → ℕ → ℕ → GossipCluster
init t_suspect t_dead t_cleanup = record {
  t_suspect = t_suspect;
  t_dead = t_dead;
  t_cleanup = t_cleanup;
  nodes = [];
  failed_nodes = [];
}

abbrev pub is_active : List String → String → GossipNode → Bool
is_active failed nid n = not (Sets.member nid failed) && n.is_alive

-- the first node of `add_node` that the new one can join through
unfoldable pub seed_of : List String → Nodes → Option (String × GossipNode)
seed_of failed [] = none
seed_of failed ((nid, existing) ∷ nodes) =
    let rest = seed_of failed nodes in
    if is_active failed nid existing then some (nid, existing) else rest

unfoldable pub add_node : GossipCluster → String → Option GossipCluster
add_node c node_id =
    let n = Node.init node_id c.t_suspect c.t_dead c.t_cleanup in
    elim (seed_of c.failed_nodes c.nodes) [
      | none ↦ some (record c { nodes = Dict.put c.nodes node_id n })
      | some (nid, seed) ↦ do
        joined ← join n seed
        some (record c { nodes = Dict.put (Dict.put c.nodes nid joined.1) node_id joined.0 })
    ]

unfoldable pub remove_node : GossipCluster → String → GossipCluster
remove_node c node_id = record c { failed_nodes = Sets.insert node_id c.failed_nodes }

-- `active_ids`
unfoldable pub active_ids : List String → Nodes → List String
active_ids failed [] = []
active_ids failed ((nid, n) ∷ nodes) =
    let rest = active_ids failed nodes in if is_active failed nid n then nid ∷ rest else rest

unfoldable pub leaving_ids : List String → Nodes → List String
leaving_ids failed [] = []
leaving_ids failed ((nid, n) ∷ nodes) =
    let rest = leaving_ids failed nodes in
    if is_active failed nid n && n.is_leaving then nid ∷ rest else rest

-- the inner loop over the peers of a node that leaves
unfoldable pub tell_peers : Nodes → String → Membership → List String → ℕ → Option Nodes
tell_peers nodes nid gossip [] now = some nodes
tell_peers nodes nid gossip (peer_id ∷ peers) now =
    if peer_id == nid then tell_peers nodes nid gossip peers now else (do
      peer ← Dict.get nodes peer_id
      tell_peers (Dict.put nodes peer_id (receive_gossip peer gossip now)) nid gossip peers now)

unfoldable pub say_goodbye : Nodes → List String → List String → ℕ → Option Nodes
say_goodbye nodes active [] now = some nodes
say_goodbye nodes active (nid ∷ leaving) now = do
  n ← Dict.get nodes nid
  told ← tell_peers nodes nid n.membership active now
  gone ← Dict.get told nid
  say_goodbye (Dict.put told nid (record gone { is_alive = false; is_leaving = false })) active
      leaving now

-- `[p for p in active_ids if p != nid]`
unfoldable pub peers_of : String → List String → List String
peers_of nid [] = []
peers_of nid (p ∷ ps) = if p == nid then peers_of nid ps else p ∷ peers_of nid ps

-- both nodes get what the other one had before
unfoldable pub exchange_with : Nodes → String → GossipNode → String → ℕ → Option Nodes
exchange_with nodes nid n peer_id now = do
  peer ← Dict.get nodes peer_id
  some (
      Dict.put (Dict.put nodes nid (receive_gossip n peer.membership now)) peer_id
        (receive_gossip peer n.membership now))

unfoldable pub exchange : Nodes → List String → (String → ℕ) → String → ℕ → Option Nodes
exchange nodes active pick nid now = do
  n ← Dict.get nodes nid
  beaten ← Node.heartbeat n now
  elim (get_elem? (peers_of nid active) (pick nid % length (peers_of nid active))) [
    | none ↦ some (Dict.put nodes nid beaten)
    | some peer_id ↦ exchange_with (Dict.put nodes nid beaten) nid beaten peer_id now
  ]

unfoldable pub exchange_all : Nodes → List String → (String → ℕ) → List String → ℕ → Option Nodes
exchange_all nodes active pick [] now = some nodes
exchange_all nodes active pick (nid ∷ ids) now = do
  nodes' ← exchange nodes active pick nid now
  exchange_all nodes' active pick ids now

unfoldable pub detect_each : Nodes → List String → ℕ → Option Nodes
detect_each nodes [] now = some nodes
detect_each nodes (nid ∷ ids) now = do
  n ← Dict.get nodes nid
  detect_each (Dict.put nodes nid (Node.detect_failures n now).0) ids now

unfoldable pub gossip_round : GossipCluster → (String → ℕ) → ℕ → Option GossipCluster
gossip_round c pick now = do
  nodes ←
      say_goodbye c.nodes (active_ids c.failed_nodes c.nodes) (leaving_ids c.failed_nodes c.nodes)
        now
  let active = active_ids c.failed_nodes nodes
  exchanged ← exchange_all nodes active pick active now
  detected ← detect_each exchanged active now
  some (record c { nodes = detected })

-- `num_rounds` rounds from `start_time` on, without the report of the members
unfoldable pub run_rounds : GossipCluster → (ℕ → String → ℕ) → ℕ → ℕ → Option GossipCluster
run_rounds c picks zero start_time = some c
run_rounds c picks (suc num_rounds) start_time = do
  c' ← gossip_round c (picks start_time) start_time
  run_rounds c' picks num_rounds (start_time + 1)
