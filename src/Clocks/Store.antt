-- ===== src/Clocks/Store.antt =====
-- `VersionedKVStore` and `find_conflicts` of vector-clocks/vector_clock.py, over any type of values.
use ddia_implementations.Prelude.{
  String, Bool, List, string_key, [], get_or, ◌∷◌, true, Option, false, if◌then◌else◌, some, ◌++◌,
  ◌||◌, none,
}
use ddia_implementations.Dict
use ddia_implementations.Dict.{Dict}
use ddia_implementations.Clocks.Clock.{
  VectorClock, increment, strip, merge, dominates, is_concurrent,
}

pub record VersionedValue (V : Type 0) : Type 0 where
  pub value : V
  pub vector_clock : VectorClock

pub data Action : Type 0 where
  written sibling_created reconciled : Action

pub record HistoryEntry (V : Type 0) : Type 0 where
  pub action : Action
  pub key : String
  pub value : V
  pub vector_clock : VectorClock

pub record VersionedKvStore (V : Type 0) : Type 0 where
  pub node_id : String
  pub contents : Dict String (List (VersionedValue V))
  pub clock : VectorClock
  pub history : List (HistoryEntry V)

unfoldable pub merge_all : VectorClock → List VectorClock → VectorClock
merge_all vc [] = vc
merge_all vc (c ∷ cs) = merge_all (merge vc c) cs

-- the calls that change a store
pub data Call (V : Type 0) : Type 0 where
  put_call : String → V → Option VectorClock → Call V
  receive_call : String → V → VectorClock → Call V
  reconcile_call : String → V → List VectorClock → Call V

module _ {V : Type 0} where
  abbrev pub init : String → VersionedKvStore V
  init id = record { node_id = id; contents = []; clock = []; history = [] }

  unfoldable pub get_versions : VersionedKvStore V → String → List (VersionedValue V)
  get_versions s key = get_or (Dict.get s.contents key) []

  -- the loops that keep the versions that the new clock does not supersede
  unfoldable pub surviving : VectorClock → List (VersionedValue V) → List (VersionedValue V)
  surviving vc [] = []
  surviving vc (v ∷ vs) =
      let rest = surviving vc vs in if dominates vc v.vector_clock then rest else v ∷ rest

  abbrev is_empty : List (VersionedValue V) → Bool
  is_empty [] = true
  is_empty (v ∷ vs) = false

  -- the clock of a new version
  unfoldable pub new_clock : VersionedKvStore V → Option VectorClock → VectorClock
  new_clock s none = strip (increment s.clock s.node_id)
  new_clock s (some context) = merge context (increment s.clock s.node_id)

  unfoldable pub put :
      VersionedKvStore V → String → V → Option VectorClock → VersionedKvStore V × VectorClock
  unfolding surviving new_clock
  put s key value context =
      let new_vc = new_clock s context in
      let kept = surviving new_vc (get_versions s key) in
      (
        record s {
          contents =
              Dict.put s.contents key
                (kept ++ record { value = value; vector_clock = new_vc } ∷ []);
          clock = merge (increment s.clock s.node_id) new_vc;
          history =
              s.history
              ++ record {
                action = if is_empty kept then written else sibling_created;
                key = key;
                value = value;
                vector_clock = new_vc;
              }
                ∷ [];
        },
        new_vc,
      )

  -- `any(…)` of `_receive_replica`
  unfoldable pub any_dominates : List (VersionedValue V) → VectorClock → Bool
  any_dominates [] vc = false
  any_dominates (v ∷ vs) vc = dominates v.vector_clock vc || any_dominates vs vc

  unfoldable pub receive_replica :
      VersionedKvStore V → String → V → VectorClock → VersionedKvStore V
  unfolding surviving any_dominates
  receive_replica s key value vector_clock =
      let kept = surviving vector_clock (get_versions s key) in
      record s {
        contents = Dict.put s.contents key (
            if any_dominates kept vector_clock
            then kept
            else kept ++ record { value = value; vector_clock = vector_clock } ∷ []);
        clock = merge s.clock vector_clock;
      }

  unfoldable pub reconcile :
      VersionedKvStore V → String → V → List VectorClock → VersionedKvStore V × VectorClock
  unfolding merge_all
  reconcile s key value contexts =
      let merged = increment (merge (merge_all [] contexts) s.clock) s.node_id in
      (
        record s {
          contents = Dict.put s.contents key (record { value = value; vector_clock = merged } ∷ []);
          clock = merge s.clock merged;
          history =
              s.history
              ++ record { action = reconciled; key = key; value = value; vector_clock = merged }
                ∷ [];
        },
        merged,
      )

  -- the inner and the outer loop of `find_conflicts`
  unfoldable pub conflicts_with : VersionedValue V → List (VersionedValue V) → Bool
  conflicts_with v [] = false
  conflicts_with v (w ∷ ws) = is_concurrent v.vector_clock w.vector_clock || conflicts_with v ws

  unfoldable pub find_conflicts : List (VersionedValue V) → Bool
  unfolding conflicts_with
  find_conflicts [] = false
  find_conflicts (v ∷ vs) = conflicts_with v vs || find_conflicts vs

  unfoldable pub serve : VersionedKvStore V → Call V → VersionedKvStore V
  unfolding put receive_replica reconcile
  serve s (put_call key value context) = (put s key value context).0
  serve s (receive_call key value vc) = receive_replica s key value vc
  serve s (reconcile_call key value contexts) = (reconcile s key value contexts).0

  unfoldable pub serve_all : VersionedKvStore V → List (Call V) → VersionedKvStore V
  unfolding serve
  serve_all s [] = s
  serve_all s (c ∷ cs) = serve_all (serve s c) cs
