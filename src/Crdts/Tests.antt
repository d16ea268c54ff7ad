-- ===== src/Crdts/Tests.antt =====
-- The theorems on merges at two replicas.
use ddia_implementations.Prelude.{
  List, string_key, nat_key, string_dec, ℕ_discrete, refl, [], ◌∷◌, ◌≡◌, true, false,
}
use ddia_implementations.Dict
use ddia_implementations.Sets
use ddia_implementations.Crdts.Counter
use ddia_implementations.Crdts.Counter.{GCounter, get_count, merge_counts, sum, increment, value}
use ddia_implementations.Crdts.Set.{
  OrSet, Tag, tag_key, pair_dec, tags_of, keys_of, merge_elements, contains, add, remove, merge,
}
use ddia_implementations.Crdts.Join.{add_wins}

runs : Unit {0}
unfolding get_count merge_counts sum increment value Counter.merge tags_of keys_of merge_elements
    contains add remove merge pair_dec Dict.get Dict.put Dict.remove string_dec ℕ_discrete
    Sets.insert Sets.member Sets.union Sets.minus
runs = tt

abbrev at_a : GCounter
at_a = record { replica_id = "a"; counts = ("a", 2) ∷ ("b", 1) ∷ [] }

abbrev at_b : GCounter
at_b = record { replica_id = "b"; counts = ("b", 3) ∷ [] }

value_run : value (Counter.merge at_a at_b) ≡ 5
unfolding runs
value_run = refl

-- both replicas know the element, one removes it
abbrev shared : List Tag
shared = ("a", 1) ∷ []

abbrev set_a : OrSet
set_a = record { replica_id = "a"; seq = 1; elements = ("x", shared) ∷ []; tombstones = [] }

abbrev set_b : OrSet
set_b = record { replica_id = "b"; seq = 1; elements = ("x", shared) ∷ []; tombstones = [] }

removed_run : contains (merge set_a (remove set_b "x").0) "x" ≡ false
unfolding runs
removed_run = refl

add_wins_example : contains (merge (add set_a "x") (remove set_b "x").0) "x" ≡ true
unfolding runs
add_wins_example = add_wins set_a set_b "x" refl refl refl
