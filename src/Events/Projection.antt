-- ===== src/Events/Projection.antt =====
-- `Projection` and `LiveProjection` of event-sourcing-store/event_store.py, over any type of states.
-- A handler changes the state that it is given: here it is a function from states to states.
use ddia_implementations.Prelude.{
  ℕ, ◌+◌, String, Bool, true, false, List, [], ◌∷◌, Option, none, some, if◌then◌else◌, string_key,
  ltb, leb, ◌&&◌,
}
use ddia_implementations.Dict
use ddia_implementations.Dict.{Dict}
use ddia_implementations.Events.Store.{Event, EventStore, read_all, read_stream}

abbrev pub Handlers : Type 0 → Type 0 → Type 0
Handlers S D = Dict String (S → Event D → S)

pub record Projection (S D : Type 0) : Type 0 where
  pub name : String
  pub handlers : Handlers S D
  pub state : S
  pub position : ℕ
  pub snapshot_interval : Option ℕ
  pub events_since_snapshot : ℕ

pub record Snapshot (S : Type 0) : Type 0 where
  pub state : S
  pub position : ℕ

-- a projection and the dict `_snapshots` of its store
pub record View (S D : Type 0) : Type 0 where
  pub projection : Projection S D
  pub snapshots : Dict String (Snapshot S)

-- `self._snapshot_interval and count >= self._snapshot_interval`
abbrev pub is_due : Option ℕ → ℕ → Bool
is_due none count = false
is_due (some interval) count = ltb 0 interval && leb interval count

module _ {S D : Type 0} where
  unfoldable pub init : String → S → Option ℕ → Projection S D
  init name start snapshot_interval = record {
    name = name;
    handlers = [];
    state = start;
    position = 0;
    snapshot_interval = snapshot_interval;
    events_since_snapshot = 0;
  }

  unfoldable pub when : Projection S D → String → (S → Event D → S) → Projection S D
  when p event_type handler = record p { handlers = Dict.put p.handlers event_type handler }

  -- `if event.event_type in self._handlers`
  unfoldable pub handle : Handlers S D → S → Event D → S
  handle handlers state e = elim (Dict.get handlers e.event_type) [
    | none ↦ state
    | some handler ↦ handler state e
  ]

  unfoldable pub save_snapshot : View S D → View S D
  save_snapshot v = record v {
    snapshots =
        Dict.put v.snapshots v.projection.name
          (record { state = v.projection.state; position = v.projection.position });
  }

  -- the round of `catch_up`, and `_on_event` below its test
  unfoldable pub process : View S D → Event D → View S D
  process v e =
      let p = v.projection in
      let seen : Projection S D = record p {
        state = handle p.handlers p.state e;
        position = e.event_id;
        events_since_snapshot = p.events_since_snapshot + 1;
      } in
      let rested : Projection S D = record seen { events_since_snapshot = 0 } in
      if is_due p.snapshot_interval (p.events_since_snapshot + 1)
      then record (save_snapshot (record v { projection = seen })) { projection = rested }
      else record v { projection = seen }

  unfoldable pub process_all : View S D → List (Event D) → ℕ → View S D × ℕ
  process_all v [] count = (v, count)
  process_all v (e ∷ es) count = process_all (process v e) es (count + 1)

  unfoldable pub catch_up : {L : Type 0} → EventStore D L → View S D → View S D × ℕ
  catch_up s v = process_all v (read_all s (v.projection.position + 1)) 0

  unfoldable pub load_snapshot : View S D → View S D × Bool
  load_snapshot v = elim (Dict.get v.snapshots v.projection.name) [
    | none ↦ (v, false)
    | some snap ↦ (
      record v {
        projection = record v.projection { state = snap.state; position = snap.position };
      },
      true,
    )
  ]

  -- `{}` is the state that the projection began with
  unfoldable pub reset : S → View S D → View S D
  reset start v = record v {
    projection = record v.projection { state = start; position = 0; events_since_snapshot = 0 };
  }

  unfoldable pub on_event : View S D → Event D → View S D
  on_event v e = if leb e.event_id v.projection.position then v else process v e

  -- the loop of `reconstruct_state`
  unfoldable pub replay_to : Handlers S D → Option ℕ → S → List (Event D) → S
  replay_to handlers up_to state [] = state
  replay_to handlers none state (e ∷ es) = replay_to handlers none (handle handlers state e) es
  replay_to handlers (some last) state (e ∷ es) =
      let rest = replay_to handlers (some last) (handle handlers state e) es in
      if ltb last e.event_id then state else rest

  unfoldable pub reconstruct_state :
      {L : Type 0} → EventStore D L → String → Handlers S D → Option ℕ → S → Option S
  reconstruct_state s stream_id handlers up_to start = elim (read_stream s stream_id 0) [
    | none ↦ none
    | some events ↦ some (replay_to handlers up_to start events)
  ]
