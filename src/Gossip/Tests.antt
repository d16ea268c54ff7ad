-- ===== src/Gossip/Tests.antt =====
-- The gossip protocol with two nodes, and a third one that comes late.
use ddia_implementations.Prelude.{
  ℕ, [], ◌∷◌, none, some, ◌≡◌, ◌≢◌, refl, arith, string_key, string_dec, ℕ_discrete, ◌>>=◌,
}
use ddia_implementations.Dict
use ddia_implementations.Sets
use ddia_implementations.Gossip.Node
use ddia_implementations.Gossip.Cluster
use ddia_implementations.Gossip.Node.{
  GossipNode, MemberEntry, Membership, alive, dead, suspected, receive_gossip, receive_all,
  receive_one, merge_entry, detect_failures, detect_all, detect_one, heartbeat, join, leave,
  copy_members, with_status, get_alive_members,
}
use ddia_implementations.Gossip.Cluster.{
  GossipCluster, add_node, remove_node, seed_of, active_ids, leaving_ids, tell_peers, say_goodbye,
  peers_of, exchange_with, exchange, exchange_all, detect_each, gossip_round, run_rounds,
}
use ddia_implementations.Gossip.Merged.{
  get-receive_gossip, dead_stays, IsDead, none_done, heard, checked,
}
use ddia_implementations.Gossip.Rounds.{Live, begun, joined, crashed, run_rounds-Live}

runs : Unit {0}
unfolding Node.init Cluster.init receive_gossip receive_all receive_one merge_entry detect_failures
    detect_all detect_one heartbeat join leave copy_members with_status get_alive_members add_node
    remove_node seed_of active_ids leaving_ids tell_peers say_goodbye peers_of exchange_with
    exchange exchange_all detect_each gossip_round run_rounds Dict.get Dict.put string_dec
    ℕ_discrete Sets.member Sets.insert
runs = tt

abbrev entry : ℕ → ℕ → Node.Status → MemberEntry
entry count time status = record {
  heartbeat_counter = count;
  timestamp_last_updated = time;
  status = status;
}

abbrev node_a : GossipNode
node_a = record (Node.init "a" 5 10 20) {
  membership = ("a", entry 9 9 alive) ∷ ("b", entry 2 3 dead) ∷ [];
}

abbrev news : Membership
news = ("b", entry 7 8 alive) ∷ ("c", entry 1 8 alive) ∷ []

get-receive_gossip_example :
    Dict.get (receive_gossip node_a news 12).membership "c" ≡ some (entry 1 12 alive)
unfolding runs
get-receive_gossip_example = get-receive_gossip node_a news "c" 12 (refl, (refl, tt))

dead_stays_example : IsDead (detect_failures (receive_gossip node_a news 12) 20).0 "b"
unfolding runs
dead_stays_example =
    dead_stays "b" node_a (detect_failures (receive_gossip node_a news 12) 20).0 (entry 2 3 dead)
      (checked 20 (λ e g. ground arith) (heard news 12 none_done)) refl refl

suspected_run : (detect_failures node_a 30).1 ≡ ("b", Node.removed) ∷ []
unfolding runs
suspected_run = refl

abbrev pair : GossipCluster
pair = record (Cluster.init 5 10 20) {
  nodes =
      (
        "a",
        record (Node.init "a" 5 10 20) {
          membership = ("a", entry 0 0 alive) ∷ ("b", entry 0 0 alive) ∷ [];
        },
      )
      ∷ (
        "b",
        record (Node.init "b" 5 10 20) {
          membership = ("b", entry 0 0 alive) ∷ ("a", entry 0 0 alive) ∷ [];
        },
      )
      ∷ [];
}

abbrev single : GossipCluster
single = record (Cluster.init 5 10 20) { nodes = ("a", Node.init "a" 5 10 20) ∷ [] }

pair-Live : Live pair
unfolding runs
pair-Live =
    joined {c = single} "b" refl (joined {c = Cluster.init 5 10 20} "a" refl (begun 5 10 20))

run_rounds-Live_example :
    (add_node (remove_node pair "b") "c" ≢ none)
    × (run_rounds (remove_node pair "b") (λ t nid. t) 30 1 ≢ none)
run_rounds-Live_example =
    run_rounds-Live (remove_node pair "b") "c" (λ t nid. t) 30 1 (crashed "b" pair-Live)

-- the node that crashed is dead for the other one after ten rounds more
crash_run :
    (run_rounds (remove_node pair "b") (λ t nid. t) 12 1
      >>= (λ c. Dict.get c.nodes "a" >>= (λ n. some (get_alive_members n))))
    ≡ some ("a" ∷ [])
unfolding runs
crash_run = refl
