-- ===== src/Lamport/Order.antt =====
-- The clock condition for the events of lamport-clocks/lamport.py.
use ddia_implementations.Prelude.{
  ◌⊎◌, inl, inr, get_elem?-lt, zero, suc, ℕ, ◌+◌, String, List, string_key, [], ◌∷◌, Option, none,
  some, length, ◌++◌, get_elem?, get_elem?-append, get_elem?-append_end, ◌≡◌, ◌<◌, ◌≤◌, arith, ◌∙◌,
  ap,
}
use ddia_implementations.Dict
use ddia_implementations.Dict.{Dict, get-put}
use ddia_implementations.Lamport.Node.{
  Event, Node, System, Call, node_of, log_event, EventType, local_event, send, send_message,
  serve_all, tick, send_tick, local_call, local, receive_message, send_call, receive_tick, receive,
}

-- the event `i` is the parent or the cause of the event `j`, or of one that reaches it
pub data Reaches (es : List Event) : ℕ → ℕ → Type 0 where
  by_parent : (i j : ℕ) (e : Event) → get_elem? es j ≡ some e → e.parent ≡ some i → Reaches es i j
  by_cause : (i j : ℕ) (e : Event) → get_elem? es j ≡ some e → e.cause ≡ some i → Reaches es i j
  further :
      (i j k : ℕ) (e : Event)
      → get_elem? es j ≡ some e
      → Reaches es i j
      → Reaches es j k
      → Reaches es i k

-- the event `i` is there, and its time is at most `ts`
pub record IsBefore (es : List Event) (i ts : ℕ) : Type 0 where
  pub event : Event
  pub found : get_elem? es i ≡ some event
  pub early : event.timestamp ≤ ts

-- the event `i` is there, and earlier than the event `e`
abbrev pub IsEarlier : List Event → ℕ → Event → Type 0
IsEarlier es i e = (ts : ℕ) × ((ts < e.timestamp) × IsBefore es i ts)

pub record IsValid (s : System) : Type 0 where
  pub last :
      (id : String) (i : ℕ)
      → (node_of s id).last_event ≡ some i
      → IsBefore s.events i (node_of s id).counter
  pub parents :
      (j i : ℕ) (e : Event)
      → get_elem? s.events j ≡ some e
      → e.parent ≡ some i
      → IsEarlier s.events i e
  pub causes :
      (j i : ℕ) (e : Event)
      → get_elem? s.events j ≡ some e
      → e.cause ≡ some i
      → IsEarlier s.events i e

IsBefore-append :
    (es : List Event) (e : Event) (i ts ts' : ℕ)
    → ts ≤ ts'
    → IsBefore es i ts
    → IsBefore (es ++ e ∷ []) i ts'
IsBefore-append es e i ts ts' l b = record {
  event = b.event;
  found = get_elem?-append es (e ∷ []) i (get_elem?-lt es i b.event b.found) ∙ b.found;
  early = ground (arith, b.early);
}

get_elem?-snoc :
    (es : List Event) (y : Event) (j : ℕ) (e : Event)
    → get_elem? (es ++ y ∷ []) j ≡ some e
    → (get_elem? es j ≡ some e) ⊎ (y ≡ e)
get_elem?-snoc [] y zero e h = inr cc
get_elem?-snoc [] y (suc j) e h = ground arith
get_elem?-snoc (x ∷ es) y zero e h = inl h
get_elem?-snoc (x ∷ es) y (suc j) e h = get_elem?-snoc es y j e h

IsEarlier-append :
    (es : List Event) (y : Event) (i : ℕ) (e : Event)
    → IsEarlier es i e
    → IsEarlier (es ++ y ∷ []) i e
IsEarlier-append es y i e (ts, (l, b)) = (ts, (l, IsBefore-append es y i ts ts (ground arith) b))

-- an event is logged at a time after the node's clock and after its cause
log_event-IsValid :
    (s : System) (id : String) (t : EventType) (ts : ℕ) (cause : Option ℕ)
    → IsValid s
    → (node_of s id).counter < ts
    → ((i : ℕ) → cause ≡ some i → (c : ℕ) × ((c < ts) × IsBefore s.events i c))
    → IsValid (log_event s id (node_of s id) t ts cause)
unfolding log_event
log_event-IsValid s id t ts cause v l c =
    let y : Event = record {
      node_id = id;
      event_type = t;
      timestamp = ts;
      parent = (node_of s id).last_event;
      cause = cause;
    } in
    let n : Node = record { counter = ts; last_event = some (length s.events) } in
    let end = get_elem?-append_end s.events y in
    record {
      last = λ id' i h. elim (string_key.dec id id') [
        | yes q ↦ record {
          event = y;
          found = end i (ground (arith, get-put s.nodes id n id'));
          early = ground (arith, get-put s.nodes id n id');
        }
        | no q ↦
            IsBefore-append s.events y i (node_of s id').counter _
              (ground (arith, get-put s.nodes id n id'))
              (v.last id' i (ground (arith, get-put s.nodes id n id')))
      ];
      parents = λ j i e h p. elim (get_elem?-snoc s.events y j e h) [
        | inl q ↦ IsEarlier-append s.events y i e (v.parents j i e q p)
        | inr q ↦ (
          (node_of s id).counter,
          (
            ground arith,
            IsBefore-append s.events y i _ _ (ground arith)
                (v.last id i (ap (λ (e' : Event). e'.parent) q ∙ p)),
          ),
        )
      ];
      causes = λ j i e h p. elim (get_elem?-snoc s.events y j e h) [
        | inl q ↦ IsEarlier-append s.events y i e (v.causes j i e q p)
        | inr q ↦
            let (k, (lt, b)) = c i (ap (λ (e' : Event). e'.cause) q ∙ p) in
            (k, (ground arith, IsBefore-append s.events y i k k (ground arith) b))
      ];
    }

local_event-IsValid : (s : System) (id : String) → IsValid s → IsValid (local_event s id)
unfolding local_event tick
local_event-IsValid s id v =
    log_event-IsValid s id local _ none v (omega arith) (λ i h. ground arith)

sent-IsBefore :
    (s : System) (id : String) (ts i : ℕ)
    → i ≡ length s.events
    → IsBefore (log_event s id (node_of s id) send ts none).events i ts
unfolding log_event
sent-IsBefore s id ts i h = record {
  event = record {
    node_id = id;
    event_type = send;
    timestamp = ts;
    parent = (node_of s id).last_event;
    cause = none;
  };
  found = get_elem?-append_end s.events _ i h;
  early = ground arith;
}

send_message-IsValid :
    (s : System) (id to_node : String) → IsValid s → IsValid (send_message s id to_node)
unfolding send_message send_tick receive_message receive_tick
send_message-IsValid s id to_node v =
    let ts : ℕ = (node_of s id).counter + 1 in
    let sent : System = log_event s id (node_of s id) send ts none in
    let sent-IsValid = log_event-IsValid s id send ts none v (omega arith) (λ i h. ground arith) in
    log_event-IsValid sent to_node receive _ (some (length s.events)) sent-IsValid (ground arith)
      (λ i h. (ts, (ground arith, sent-IsBefore s id ts i (ground arith))))

serve_all-IsValid : (s : System) (calls : List Call) → IsValid s → IsValid (serve_all s calls)
unfolding serve_all
serve_all-IsValid s [] v = v
serve_all-IsValid s (local_call id ∷ cs) v =
    serve_all-IsValid (local_event s id) cs (local_event-IsValid s id v)
serve_all-IsValid s (send_call id to_node ∷ cs) v =
    serve_all-IsValid (send_message s id to_node) cs (send_message-IsValid s id to_node v)

abbrev pub start : System
start = record { nodes = []; events = [] }

start-IsValid : IsValid start
unfolding Dict.get
start-IsValid = record {
  last = λ id i h. ground arith;
  parents = λ j i e h p. ground arith;
  causes = λ j i e h p. ground arith;
}

timestamp-Reaches :
    (s : System) (i j : ℕ) (a b : Event)
    → IsValid s
    → Reaches s.events i j
    → get_elem? s.events i ≡ some a
    → get_elem? s.events j ≡ some b
    → a.timestamp < b.timestamp
timestamp-Reaches s i j a b v (by_parent _ _ e h p) ha hb =
    let (ts, (l, f)) = v.parents j i e h p in ground (arith, f.found, f.early)
timestamp-Reaches s i j a b v (by_cause _ _ e h p) ha hb =
    let (ts, (l, f)) = v.causes j i e h p in ground (arith, f.found, f.early)
timestamp-Reaches s i j a b v (further _ k _ m n r q) ha hb =
    ground (arith, timestamp-Reaches s i k a m v r ha n, timestamp-Reaches s k j m b v q n hb)

-- The clock condition: after any local events and messages of any nodes, if an event reaches
-- another one over parents (the event before on the same node) and causes (the sending of the
-- message), then its timestamp is smaller.
pub clock_condition :
    (calls : List Call) (i j : ℕ) (a b : Event)
    → Reaches (serve_all start calls).events i j
    → get_elem? (serve_all start calls).events i ≡ some a
    → get_elem? (serve_all start calls).events j ≡ some b
    → a.timestamp < b.timestamp
clock_condition calls i j a b r ha hb =
    timestamp-Reaches (serve_all start calls) i j a b (serve_all-IsValid start calls start-IsValid)
      r ha hb
