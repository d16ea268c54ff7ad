-- ===== src/Lamport/Tests.antt =====
-- The clock condition at two nodes.
use ddia_implementations.Prelude.{
  ◌<◌, List, string_key, string_dec, ℕ_discrete, [], ◌∷◌, none, some, refl,
}
use ddia_implementations.Dict
use ddia_implementations.Lamport.Node.{
  Event, Call, local_call, send_call, serve_all, tick, send, receive, local, send_tick,
  receive_tick, log_event, local_event, receive_message, send_message,
}
use ddia_implementations.Lamport.Order.{
  Reaches, start, clock_condition, further, by_cause, by_parent,
}

runs : Unit {0}
unfolding tick send_tick receive_tick log_event local_event receive_message send_message serve_all
    Dict.get Dict.put string_dec ℕ_discrete
runs = tt

-- a local event of "b", a message from "a" to "b", a local event of "b"
abbrev calls : List Call
calls = local_call "b" ∷ send_call "a" "b" ∷ local_call "b" ∷ []

abbrev sent : Event
sent = record { node_id = "a"; event_type = send; timestamp = 1; parent = none; cause = none }

abbrev received : Event
received = record {
  node_id = "b";
  event_type = receive;
  timestamp = 2;
  parent = some 0;
  cause = some 1;
}

abbrev later : Event
later = record { node_id = "b"; event_type = local; timestamp = 3; parent = some 2; cause = none }

chain : Reaches (serve_all start calls).events 1 3
unfolding runs
chain =
    further 1 2 3 received refl (by_cause 1 2 received refl refl) (by_parent 2 3 later refl refl)

clock_condition_example : sent.timestamp < later.timestamp
unfolding runs
clock_condition_example = clock_condition calls 1 3 sent later chain refl refl
