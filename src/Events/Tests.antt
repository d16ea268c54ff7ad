-- ===== src/Events/Tests.antt =====
-- The event store with numbers as data and as states, and lines that are the events themselves.
use ddia_implementations.Prelude.{
  ℕ, ◌+◌, String, [], ◌∷◌, none, some, ◌≡◌, refl, true, false, string_key, string_dec, ℕ_discrete,
}
use ddia_implementations.Dict
use ddia_implementations.Events.Store.{
  Event, EventStore, Json, empty, stream_version, add_event, is_expected, pick, read_stream,
  read_from, read_all, persist_event, append, append_each, append_batch, load_lines, load_from_file,
}
use ddia_implementations.Events.Indexed.{
  Built, started, appended, batched, read_stream-Built, append-refuses_second,
}
use ddia_implementations.Events.Restart.{IsFaithful, load_from_file-Built}
use ddia_implementations.Events.Projection.{
  View, Handlers, init, when, handle, save_snapshot, process, process_all, catch_up, load_snapshot,
  reset, on_event, replay_to, reconstruct_state,
}
use ddia_implementations.Events.Views.{Seen, began, grew, caught_up, snapshot_restores}

runs : Unit {0}
unfolding empty stream_version add_event is_expected pick read_stream read_from read_all
    persist_event append append_each append_batch load_lines load_from_file init when handle
    save_snapshot process process_all catch_up load_snapshot reset on_event replay_to
    reconstruct_state Dict.get Dict.put string_dec ℕ_discrete
runs = tt

abbrev json : Json ℕ (Event ℕ)
json = record { dumps = λ e. e; loads = λ e. some e; is_blank = λ e. false }

faithful : IsFaithful json
faithful = record { reads = λ e. refl; visible = λ e. refl }

abbrev deposit : ℕ → String → ℕ → Event ℕ
deposit i stream n = record {
  event_id = i;
  stream_id = stream;
  event_type = "deposit";
  payload = n;
  metadata = none;
}

abbrev bank : EventStore ℕ (Event ℕ)
bank = record {
  events = deposit 1 "a" 5 ∷ deposit 2 "b" 7 ∷ deposit 3 "a" 1 ∷ [];
  streams = ("a", 0 ∷ 2 ∷ []) ∷ ("b", 1 ∷ []) ∷ [];
  persists = true;
  lines = deposit 1 "a" 5 ∷ deposit 2 "b" 7 ∷ deposit 3 "a" 1 ∷ [];
}

abbrev one_event : EventStore ℕ (Event ℕ)
one_event = record {
  events = deposit 1 "a" 5 ∷ [];
  streams = ("a", 0 ∷ []) ∷ [];
  persists = true;
  lines = deposit 1 "a" 5 ∷ [];
}

abbrev two_events : EventStore ℕ (Event ℕ)
two_events = record {
  events = deposit 1 "a" 5 ∷ deposit 2 "b" 7 ∷ [];
  streams = ("a", 0 ∷ []) ∷ ("b", 1 ∷ []) ∷ [];
  persists = true;
  lines = deposit 1 "a" 5 ∷ deposit 2 "b" 7 ∷ [];
}

first : append json (empty true) "a" "deposit" 5 none (some 0) ≡ some (one_event, deposit 1 "a" 5)
unfolding runs
first = refl

second :
    append_batch json one_event "b" (("deposit", 7) ∷ []) none
    ≡ some (two_events, deposit 2 "b" 7 ∷ [])
unfolding runs
second = refl

third : append json two_events "a" "deposit" 1 none (some 1) ≡ some (bank, deposit 3 "a" 1)
unfolding runs
third = refl

two_events-Built : Built json two_events
two_events-Built =
    batched {s = one_event} (deposit 2 "b" 7 ∷ []) "b" (("deposit", 7) ∷ []) none second (
      appended {s = empty true} (deposit 1 "a" 5) "a" "deposit" 5 none (some 0) first
        (started true))

bank-Built : Built json bank
bank-Built =
    appended {s = two_events} (deposit 3 "a" 1) "a" "deposit" 1 none (some 1) third two_events-Built

read_stream-Built_example :
    (read_stream bank "a" 2 ≡ some (deposit 3 "a" 1 ∷ [])) × (stream_version bank "a" ≡ 2)
unfolding runs
read_stream-Built_example = read_stream-Built json bank "a" 2 bank-Built

append-refuses_second_example :
    (append json one_event "a" "deposit" 9 none (some 0) ≡ none)
    × (append_batch json one_event "a" (("deposit", 9) ∷ []) (some 0) ≡ none)
unfolding runs
append-refuses_second_example =
    append-refuses_second json (empty true) one_event "a" "deposit" "deposit" 5 9 none none (some 0)
      (deposit 1 "a" 5) (("deposit", 9) ∷ []) first

load_from_file-Built_example : load_from_file json bank.lines ≡ some bank
load_from_file-Built_example = load_from_file-Built json bank faithful bank-Built refl

abbrev handlers : Handlers ℕ ℕ
handlers = ("deposit", λ n e. n + e.payload) ∷ []

-- the projection saves a snapshot after two events
abbrev fresh : View ℕ ℕ
fresh = record {
  projection = record (init "total" 0 (some 2)) { handlers = handlers };
  snapshots = [];
}

abbrev view : View ℕ ℕ
view = (catch_up two_events fresh).0

view-Seen : Seen json 0 handlers bank view
view-Seen =
    grew {s = two_events} (deposit 3 "a" 1) "a" "deposit" 1 none (some 1) third
      (caught_up {v = fresh} (began two_events "total" (some 2) two_events-Built))

snapshot_restores_example :
    ((catch_up bank view).0.projection.state ≡ 13)
    × (((catch_up bank (load_snapshot view).0).0.projection.state ≡ 13)
        × ((catch_up bank (reset 0 view)).0.projection.state ≡ 13))
unfolding runs
snapshot_restores_example = snapshot_restores json 0 handlers bank view view-Seen

count_run : (catch_up bank (load_snapshot view).0).1 ≡ 1
unfolding runs
count_run = refl

reconstruct_run : reconstruct_state bank "a" handlers (some 2) 0 ≡ some 5
unfolding runs
reconstruct_run = refl

-- a live projection that is behind goes over the events in between
live_run : (on_event fresh (deposit 3 "a" 1)).projection.position ≡ 3
unfolding runs
live_run = refl
