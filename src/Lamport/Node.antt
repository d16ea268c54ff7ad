-- ===== src/Lamport/Node.antt =====
-- `LamportClock` and `Node` of lamport-clocks/lamport.py. An event object is named by its place in
-- the list of all events, and so are the `_parent` and the `_cause` of an event. The descriptions
-- and the identifiers of messages, which only label events, are left out.
use ddia_implementations.Prelude.{
  ℕ, ◌+◌, String, List, string_key, [], ◌∷◌, max, Option, none, some, length, ◌++◌, get_or,
}
use ddia_implementations.Dict
use ddia_implementations.Dict.{Dict}

pub data EventType : Type 0 where
  local send receive : EventType

pub record Event : Type 0 where
  pub node_id : String
  pub event_type : EventType
  pub timestamp : ℕ
  pub parent : Option ℕ
  pub cause : Option ℕ

-- the counter of the clock, and the last entry of the event log
pub record Node : Type 0 where
  pub counter : ℕ
  pub last_event : Option ℕ

pub record System : Type 0 where
  pub nodes : Dict String Node
  pub events : List Event

unfoldable pub tick : Node → ℕ
tick n = n.counter + 1

unfoldable pub send_tick : Node → ℕ
send_tick n = n.counter + 1

unfoldable pub receive_tick : Node → ℕ → ℕ
receive_tick n received_timestamp = max n.counter received_timestamp + 1

-- `_event_log.append` of an event of the node `n`, whose clock has moved to `ts`
unfoldable pub log_event : System → String → Node → EventType → ℕ → Option ℕ → System
log_event s id n event_type ts cause = record {
  nodes = Dict.put s.nodes id (record { counter = ts; last_event = some (length s.events) });
  events =
      s.events
      ++ record {
        node_id = id;
        event_type = event_type;
        timestamp = ts;
        parent = n.last_event;
        cause = cause;
      }
        ∷ [];
}

abbrev pub fresh : Node
fresh = record { counter = 0; last_event = none }

abbrev pub node_of : System → String → Node
node_of s id = get_or (Dict.get s.nodes id) fresh

unfoldable pub local_event : System → String → System
unfolding log_event tick
local_event s id = log_event s id (node_of s id) local (tick (node_of s id)) none

-- `receive_message` of a message with the time `ts`, sent by the event `cause`
unfoldable pub receive_message : System → String → ℕ → Option ℕ → System
unfolding log_event receive_tick
receive_message s id ts cause =
    log_event s id (node_of s id) receive (receive_tick (node_of s id) ts) cause

-- `send_message`, which delivers at once
unfoldable pub send_message : System → String → String → System
unfolding log_event send_tick
send_message s id to_node =
    let ts = send_tick (node_of s id) in
    receive_message (log_event s id (node_of s id) send ts none) to_node ts (some (length s.events))

pub data Call : Type 0 where
  local_call : String → Call
  send_call : String → String → Call

unfoldable pub serve_all : System → List Call → System
unfolding local_event send_message
serve_all s [] = s
serve_all s (local_call id ∷ cs) = serve_all (local_event s id) cs
serve_all s (send_call id to_node ∷ cs) = serve_all (send_message s id to_node) cs
