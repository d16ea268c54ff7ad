-- ===== src/Events/Store.antt =====
-- `EventStore` of event-sourcing-store/event_store.py, over any type of data and of lines of the file
-- that it persists to. JSON is a parameter. Events are not dated here: nothing reads their timestamps.
use ddia_implementations.Prelude.{
  ℕ, ◌+◌, ◌-◌, String, Bool, true, List, [], ◌∷◌, ◌++◌, Option, none, some, if◌then◌else◌, ◌==◌,
  string_key, nat_key, leb, length, get_or, get_elem?, ◌>>=◌,
}
use ddia_implementations.Dict
use ddia_implementations.Dict.{Dict}

pub record Event (D : Type 0) : Type 0 where
  pub event_id : ℕ
  pub stream_id : String
  pub event_type : String
  pub payload : D
  pub metadata : Option D

-- json.dumps of an event's record, json.loads (`none`: it raises), and `not line.strip()`
pub record Json (D L : Type 0) : Type 0 where
  pub dumps : Event D → L
  pub loads : L → Option (Event D)
  pub is_blank : L → Bool

-- The state of the store; `lines` is the file at `persist_path`.
pub record EventStore (D L : Type 0) : Type 0 where
  pub events : List (Event D)
  pub streams : Dict String (List ℕ)
  pub persists : Bool
  pub lines : List L

module _ {D : Type 0} where
  -- the list comprehension of `read_stream`; `none` is an IndexError
  unfoldable pub pick : List (Event D) → List ℕ → ℕ → Option (List (Event D))
  pick events [] from_version = some []
  pick events (i ∷ is) from_version = do
    e ← get_elem? events i
    rest ← pick events is from_version
    some (if leb from_version e.event_id then e ∷ rest else rest)

  unfoldable pub read_from : List (Event D) → ℕ → List (Event D)
  read_from [] from_position = []
  read_from (e ∷ es) from_position =
      let rest = read_from es from_position in
      if leb from_position e.event_id then e ∷ rest else rest

module _ {D L : Type 0} where
  unfoldable pub empty : Bool → EventStore D L
  empty persists = record { events = []; streams = []; persists = persists; lines = [] }

  unfoldable pub stream_version : EventStore D L → String → ℕ
  stream_version s stream_id = length (get_or (Dict.get s.streams stream_id) [])

  -- `self._events.append(event)` and the index of the event, noted with its stream
  unfoldable pub add_event : EventStore D L → Event D → EventStore D L
  add_event s e = record s {
    events = s.events ++ e ∷ [];
    streams =
        Dict.put s.streams e.stream_id
          (get_or (Dict.get s.streams e.stream_id) [] ++ (length (s.events ++ e ∷ []) - 1) ∷ []);
  }

  -- `if expected_version is not None` and the comparison
  unfoldable pub is_expected : EventStore D L → String → Option ℕ → Bool
  is_expected s stream_id none = true
  is_expected s stream_id (some version) = stream_version s stream_id == version

  unfoldable pub read_stream : EventStore D L → String → ℕ → Option (List (Event D))
  read_stream s stream_id from_version =
      pick s.events (get_or (Dict.get s.streams stream_id) []) from_version

  unfoldable pub read_all : EventStore D L → ℕ → List (Event D)
  read_all s from_position = read_from s.events from_position

  abbrev pub next_event : EventStore D L → String → String → D → Option D → Event D
  next_event s stream_id event_type payload metadata = record {
    event_id = length s.events + 1;
    stream_id = stream_id;
    event_type = event_type;
    payload = payload;
    metadata = metadata;
  }

module _ {D L : Type 0} (json : Json D L) where
  unfoldable pub persist_event : EventStore D L → Event D → EventStore D L
  persist_event s e = if s.persists then record s { lines = s.lines ++ json.dumps e ∷ [] } else s

  abbrev pub store_event : EventStore D L → Event D → EventStore D L
  store_event s e = persist_event (add_event s e) e

  -- `none` is a ConcurrencyConflict; the subscribers hear of the event that it gives
  unfoldable pub append :
      EventStore D L → String → String → D → Option D → Option ℕ → Option (EventStore D L × Event D)
  append s stream_id event_type payload metadata expected_version =
      if is_expected s stream_id expected_version
      then some (
        store_event s (next_event s stream_id event_type payload metadata),
        next_event s stream_id event_type payload metadata,
      )
      else none

  unfoldable pub append_each :
      EventStore D L → String → List (String × D) → EventStore D L × List (Event D)
  append_each s stream_id [] = (s, [])
  append_each s stream_id ((event_type, payload) ∷ rest) =
      let e = next_event s stream_id event_type payload none in
      let more =
        append_each (store_event s (next_event s stream_id event_type payload none)) stream_id
          rest in
      (more.0, e ∷ more.1)

  unfoldable pub append_batch :
      EventStore D L
      → String
      → List (String × D)
      → Option ℕ
      → Option (EventStore D L × List (Event D))
  append_batch s stream_id events expected_version =
      if is_expected s stream_id expected_version
      then some (append_each s stream_id events)
      else none

  -- the loop of `_load_from_file`; `none` is the exception of a line that is no event
  unfoldable pub load_lines : EventStore D L → List L → Option (EventStore D L)
  load_lines s [] = some s
  load_lines s (line ∷ lines) =
      if json.is_blank line
      then load_lines s lines
      else elim (json.loads line) [ none ↦ none | some e ↦ load_lines (add_event s e) lines ]

  -- `EventStore(persist_path)` on a file with these lines
  unfoldable pub load_from_file : List L → Option (EventStore D L)
  load_from_file lines =
      load_lines (record { events = []; streams = []; persists = true; lines = lines }) lines
