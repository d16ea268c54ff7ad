-- ===== src/Clocks/Tests.antt =====
-- The theorems on vector clocks at concrete clocks and calls.
use ddia_implementations.Prelude.{
  ℕ, List, string_key, nat_key, string_dec, ℕ_discrete, refl, ◌∷◌, [], ◌≡◌, some, ltb, length,
}
use ddia_implementations.Dict
use ddia_implementations.Sets
use ddia_implementations.Clocks.Clock.{
  VectorClock, strip, dominates, compare, concurrent, get, merge, increment, keys, all_keys, maxima,
  all_ge, compare_from, is_concurrent,
}
use ddia_implementations.Clocks.Store.{
  Call, receive_call, get_versions, find_conflicts, serve_all, put, init, surviving, new_clock,
  any_dominates, receive_replica, merge_all, reconcile, conflicts_with, serve,
}
use ddia_implementations.Clocks.Siblings.{put_replaces}
use ddia_implementations.Clocks.Conflicts.{find_conflicts-get_versions}

runs : Unit {0}
unfolding strip get increment keys all_keys maxima merge all_ge dominates compare_from compare
    is_concurrent get_versions surviving new_clock put any_dominates receive_replica merge_all
    reconcile conflicts_with find_conflicts serve serve_all Dict.get Dict.put string_dec ℕ_discrete
    Sets.insert Sets.member Sets.union
runs = tt

abbrev at_a : VectorClock
at_a = ("a", 2) ∷ ("b", 1) ∷ []

abbrev at_b : VectorClock
at_b = ("b", 3) ∷ []

compare_runs : compare at_a at_b ≡ concurrent
unfolding runs
compare_runs = refl

-- two siblings come from other nodes
abbrev calls : List (Call ℕ)
calls = receive_call "x" 5 at_a ∷ receive_call "x" 6 at_b ∷ []

calls_run :
    get_versions (serve_all (init "c") calls) "x"
    ≡ record { value = 5; vector_clock = at_a } ∷ record { value = 6; vector_clock = at_b } ∷ []
unfolding runs
calls_run = refl

put_replaces_example :
    get_versions (put (serve_all (init "c") calls) "x" 7 (some at_a)).0 "x"
    ≡ record { value = 7; vector_clock = (put (serve_all (init "c") calls) "x" 7 (some at_a)).1 }
      ∷ []
put_replaces_example = put_replaces "c" calls "x" 7 (some at_a)

find_conflicts-get_versions_example :
    find_conflicts (get_versions (serve_all (init "c") calls) "x")
    ≡ ltb 1 (length (get_versions (serve_all (init "c") calls) "x"))
find_conflicts-get_versions_example = find_conflicts-get_versions "c" calls "x"
