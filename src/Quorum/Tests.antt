-- ===== src/Quorum/Tests.antt =====
-- The quorum theorems at a cluster of three replicas.
use ddia_implementations.Prelude.{
  String, List, string_key, nat_key, string_dec, ℕ_discrete, refl, none, some, [], ◌∷◌, arith, ◌≡◌,
  ◌≤◌, true, false,
}
use ddia_implementations.Dict
use ddia_implementations.Sets
use ddia_implementations.Quorum.Replica.{
  ReplicaNode, write, write_all, repair_all, read, available_count, responses, max_version,
  at_version, update_node,
}
use ddia_implementations.Quorum.Cluster.{
  DynamoCluster, ReadResult, put, get, init, make_nodes, add_hints, unavailable_ids,
  first_available, distinct, set_node_available, anti_entropy_repair, one, repair_keys, best_of,
  all_keys, store_keys,
}
use ddia_implementations.Quorum.Hints.{
  Call, serve, serve_all, deliver_hints, deliver_nodes, deliver_list, deliver_one, node_ids,
  available_call, put_call,
}
use ddia_implementations.Quorum.Overlap.{get-put_version}
use ddia_implementations.Quorum.Repair.{put-failed, get_repairs, version_at}

runs : Unit {0}
unfolding write write_all repair_all read available_count responses max_version at_version
    update_node put get init make_nodes add_hints unavailable_ids first_available distinct
    set_node_available serve serve_all deliver_hints deliver_nodes deliver_list deliver_one node_ids
    anti_entropy_repair repair_keys best_of all_keys store_keys Dict.get Dict.put string_dec
    ℕ_discrete Sets.insert Sets.member Sets.union
runs = tt

abbrev three : DynamoCluster String
three = init ("a" ∷ "b" ∷ "c" ∷ []) 2 2 true

-- one replica goes down, the key is written again, another one goes down
abbrev calls : List (Call String)
calls =
    available_call "a" false
    ∷ put_call "k" "new"
    ∷ available_call "a" true
    ∷ available_call "b" false
    ∷ []

abbrev answer : ReadResult String
answer = record { value = one "new"; version = 2; is_conflict = false; replicas_repaired = 1 }

answer_run : (get (serve_all (put three "k" "old").0 calls) "k").1 ≡ some answer
unfolding runs
answer_run = refl

hints_run : (deliver_hints (serve_all (put three "k" "old").0 calls)).1 ≡ some 1
unfolding runs
hints_run = refl

repair_run : (anti_entropy_repair (serve_all (put three "k" "old").0 calls)).1 ≡ 1
unfolding runs
repair_run = refl

get-put_version_example : 1 ≤ answer.version
unfolding runs
get-put_version_example =
    get-put_version three "k" "old" 1 calls answer (omega arith) refl answer_run

abbrev fresh : String → ReplicaNode String
fresh id = record {
  node_id = id;
  store = ("k", record { value = "new"; version = 2; node_id = id }) ∷ [];
  is_available = true;
  hints = [];
}

get_repairs_example : version_at (fresh "a") "k" ≡ some 2
unfolding runs
get_repairs_example =
    get_repairs (serve_all (put three "k" "old").0 calls) "k" "a" answer (fresh "a") answer_run
      (omega arith) refl refl

-- one replica is no quorum of two
abbrev alone : DynamoCluster String
alone = serve_all three (available_call "a" false ∷ available_call "b" false ∷ [])

abbrev empty_node : ReplicaNode String
empty_node = record { node_id = "c"; store = []; is_available = true; hints = [] }

failed_run : (put alone "k" "lost").1 ≡ none
unfolding runs
failed_run = refl

put-failed_example :
    (Dict.get (put alone "k" "lost").0.nodes "c" ≡ some (write empty_node "k" "lost" 1).0)
    × (Dict.get (write empty_node "k" "lost" 1).0.store "k"
        ≡ some (record { value = "lost"; version = 1; node_id = "c" }))
unfolding runs
put-failed_example =
    put-failed alone "k" "c" "b" "lost" "kept" empty_node 1 failed_run refl refl refl refl
