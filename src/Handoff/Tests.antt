-- ===== src/Handoff/Tests.antt =====
-- Hinted handoff with three nodes, two of them preferred.
use ddia_implementations.Handoff.Acknowledged.{Stored, put-Stored}
use ddia_implementations.Prelude.{
  ℕ, String, [], ◌∷◌, none, some, ◌≡◌, refl, true, false, string_key, string_dec, string_ne,
  ℕ_discrete,
}
use ddia_implementations.Dict
use ddia_implementations.Sets
use ddia_implementations.Handoff.Node
use ddia_implementations.Handoff.Node.{Hint}
use ddia_implementations.Handoff.Store.{
  HintedHandoffStore, HandoffResult, ring_from, non_preferred, write_one, write_preferred,
  place_hint, place_hints, newest, read_preferred, deliver, hand_off, trigger_handoff,
  set_node_available, expire_each, expire_all_hints, get_preferred_nodes, finish_put, put, get,
  WriteResult,
}
use ddia_implementations.Handoff.Delivered.{HasVersion, trigger_handoff-HasVersion}

runs : Unit {0}
unfolding Node.is_expired Node.init Node.put Node.get Node.store_hint Node.hints_for
    Node.hints_without Node.get_hints_for Node.remove_hints_for Node.fresh_hints Node.expire_hints
    Node.set_available ring_from non_preferred write_one write_preferred place_hint place_hints
    newest read_preferred deliver hand_off trigger_handoff set_node_available expire_each
    expire_all_hints get_preferred_nodes finish_put put get Dict.get Dict.put string_dec ℕ_discrete
    Sets.member Sets.insert
runs = tt

abbrev hash : String → ℕ
hash key = 4

-- "b" is down, so "a" keeps a hint for it
abbrev cluster : HintedHandoffStore ℕ
cluster = record {
  sorted_node_ids = "a" ∷ "b" ∷ "c" ∷ [];
  nodes =
      ("a", Node.init "a")
      ∷ ("b", record (Node.init "b") { available = false })
      ∷ ("c", Node.init "c")
      ∷ [];
  replication_factor = 2;
  write_quorum = 2;
  read_quorum = 1;
  hint_ttl = 100;
  sloppy_quorum = true;
  versions = [];
}

abbrev hint : Hint ℕ
hint = record { target_node_id = "b"; key = "x"; value = 7; version = 1; created_at = 5; ttl = 100 }

abbrev written : HintedHandoffStore ℕ
written = record cluster {
  nodes =
      ("a", record (Node.init "a") { hints = hint ∷ [] })
      ∷ ("b", record (Node.init "b") { available = false })
      ∷ ("c", record (Node.init "c") { store = ("x", (7, 1)) ∷ [] })
      ∷ [];
  versions = ("x", 1) ∷ [];
}

put_run :
    put hash cluster "x" 7 5
    ≡ some (
      written,
      record {
        success = true;
        replicas_written = "c" ∷ [];
        hints_stored = ("a", "b") ∷ [];
        version = 1;
        sloppy = true;
      },
    )
unfolding runs
put_run = refl

get_run :
    get hash written "x"
    ≡ some (record { value = some 7; version = some 1; replicas_read = "c" ∷ [] })
unfolding runs
get_run = refl

trigger_handoff-HasVersion_example :
    (s' : HintedHandoffStore ℕ) × (report : HandoffResult) × (n' : Node.Node ℕ) × (trigger_handoff
        written "b" 50
      ≡ some (s', report))
    × (Dict.get s'.nodes "b" ≡ some n')
    × HasVersion n' "x" 1
unfolding runs
trigger_handoff-HasVersion_example =
    trigger_handoff-HasVersion written "b" "a" 50 0 (record (Node.init "b") { available = false })
      (record (Node.init "a") { hints = hint ∷ [] }) hint refl refl (string_ne "a" "b" refl) refl
      refl refl

abbrev handed : HintedHandoffStore ℕ
handed = elim (trigger_handoff written "b" 50) [ none ↦ written | some d ↦ d.0 ]

abbrev said : HandoffResult
said = record { hints_delivered = 1; hints_expired = 0; keys_recovered = "x" ∷ [] }

abbrev result : WriteResult
result = record {
  success = true;
  replicas_written = "c" ∷ [];
  hints_stored = ("a", "b") ∷ [];
  version = 1;
  sloppy = true;
}

put-Stored_example : Stored written.nodes "c" "x" 1
unfolding runs
put-Stored_example =
    put-Stored hash cluster written "x" 7 5 1 result ("b" ∷ "c" ∷ []) "c" refl refl
      (Node.init "c", refl, refl) put_run
