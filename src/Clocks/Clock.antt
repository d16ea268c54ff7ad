-- ===== src/Clocks/Clock.antt =====
-- `VectorClock` of vector-clocks/vector_clock.py. Its one field is the dictionary. Where the code
-- goes through a set of keys, whose order Python leaves open, the model takes one order; the
-- results do not depend on it.
use ddia_implementations.Prelude.{
  ℕ, ◌+◌, String, Bool, List, string_key, get_or, ◌∷◌, true, if◌then◌else◌, false, ltb, max, leb,
  [], ◌||◌, length, ◌&&◌, take,
}
use ddia_implementations.Dict
use ddia_implementations.Dict.{Dict}
use ddia_implementations.Sets

abbrev pub VectorClock : Type 0
VectorClock = Dict String ℕ

-- the comprehension of `__init__`
unfoldable pub strip : Dict String ℕ → VectorClock
strip [] = []
strip ((k, v) ∷ d) = let rest = strip d in if ltb 0 v then (k, v) ∷ rest else rest

unfoldable pub get : VectorClock → String → ℕ
get clock node_id = get_or (Dict.get clock node_id) 0

unfoldable pub increment : VectorClock → String → VectorClock
unfolding strip get
increment clock node_id = strip (Dict.put clock node_id (get clock node_id + 1))

unfoldable pub keys : {A : Type 0} → Dict String A → List String
keys [] = []
keys ((k, v) ∷ d) = k ∷ keys d

unfoldable pub all_keys : VectorClock → VectorClock → List String
unfolding keys
all_keys a b = Sets.union (keys a) (keys b)

unfoldable pub maxima : VectorClock → VectorClock → List String → Dict String ℕ
maxima a b [] = []
maxima a b (k ∷ ks) = (k, max (get a k) (get b k)) ∷ maxima a b ks

unfoldable pub merge : VectorClock → VectorClock → VectorClock
unfolding strip maxima all_keys
merge a b = strip (maxima a b (all_keys a b))

-- the loop of `dominates`
unfoldable pub all_ge : VectorClock → VectorClock → List String → Bool
all_ge a b [] = true
all_ge a b (k ∷ ks) = let rest = all_ge a b ks in if ltb (get a k) (get b k) then false else rest

unfoldable pub dominates : VectorClock → VectorClock → Bool
unfolding all_ge all_keys
dominates a b = all_ge a b (all_keys a b)

pub data Comparison : Type 0 where
  before after equal concurrent : Comparison

-- the loop of `compare`
unfoldable pub compare_from : VectorClock → VectorClock → List String → Bool → Bool → Comparison
compare_from a b [] has_less has_greater =
    if has_less then before else if has_greater then after else equal
compare_from a b (k ∷ ks) has_less has_greater =
    let less = ltb (get a k) (get b k) || has_less in
    let greater = ltb (get b k) (get a k) || has_greater in
    let rest = compare_from a b ks less greater in if less && greater then concurrent else rest

unfoldable pub compare : VectorClock → VectorClock → Comparison
unfolding compare_from all_keys
compare a b = compare_from a b (all_keys a b) false false

unfoldable pub is_concurrent : VectorClock → VectorClock → Bool
unfolding compare
is_concurrent a b = elim (compare a b) [ concurrent ↦ true | _ ↦ false ]

unfoldable pub descends_from : VectorClock → VectorClock → Bool
unfolding dominates
descends_from a b = dominates a b

-- `sorted(…, reverse=True)` on the counters, which keeps the order of equal ones
unfoldable pub insert_entry : String × ℕ → Dict String ℕ → Dict String ℕ
insert_entry e [] = e ∷ []
insert_entry e (f ∷ d) = let rest = insert_entry e d in if ltb e.1 f.1 then f ∷ rest else e ∷ f ∷ d

unfoldable pub sort_entries : Dict String ℕ → Dict String ℕ
unfolding insert_entry
sort_entries [] = []
sort_entries (e ∷ d) = insert_entry e (sort_entries d)

unfoldable pub prune : VectorClock → ℕ → VectorClock
unfolding strip sort_entries
prune clock max_nodes =
    if leb (length clock) max_nodes
    then strip clock
    else strip (take max_nodes (sort_entries clock))
