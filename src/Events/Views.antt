-- ===== src/Events/Views.antt =====
-- The life of a projection of event-sourcing-store/event_store.py beside its store.
use ddia_implementations.Dict.{get-put}
use ddia_implementations.Prelude.{
  ℕ, String, List, [], ◌∷◌, ◌++◌, Option, none, some, ◌≡◌, refl, arith, ap, sym, ◌∙◌, subst, inl,
  inr, Bool-cases, length, take-all, append-nil, append_assoc, ◌≤◌, take, string_key,
}
use ddia_implementations.Dict
use ddia_implementations.Events.Store.{
  Event, EventStore, Json, append, append_batch, append_each, next_event, store_event,
  persist_event, add_event, is_expected,
}
use ddia_implementations.Events.Indexed.{Built, Built-IsIndexed, appended, batched}
use ddia_implementations.Events.Projection.{
  View, Handlers, init, catch_up, load_snapshot, reset, save_snapshot, Snapshot,
}
use ddia_implementations.Events.Replayed.{
  project, IsUpTo, IsUpTo-append, catch_up-IsUpTo, load_snapshot-IsUpTo, reset-IsUpTo,
}

module _ {D L : Type 0} (json : Json D L) where
  store_event-events :
      (s : EventStore D L) (e : Event D) → (store_event json s e).events ≡ s.events ++ e ∷ []
  unfolding persist_event add_event
  store_event-events s e = ground arith

  append_each-events :
      (s : EventStore D L) (t : String) (batch : List (String × D))
      → (append_each json s t batch).0.events ≡ s.events ++ (append_each json s t batch).1
  unfolding append_each
  append_each-events s t [] = sym (append-nil s.events)
  append_each-events s t ((k, d) ∷ batch) =
      let e : Event D = next_event s t k d none in
      let rest : List (Event D) = (append_each json (store_event json s e) t batch).1 in
      append_each-events (store_event json s e) t batch
      ∙ ap (λ es. es ++ rest) (store_event-events s e)
      ∙ append_assoc s.events (e ∷ []) rest

  append-events :
      (s s' : EventStore D L) (e : Event D) (t k : String) (d : D) (m : Option D) (x : Option ℕ)
      → append json s t k d m x ≡ some (s', e)
      → s'.events ≡ s.events ++ e ∷ []
  unfolding append
  append-events s s' e t k d m x q = elim (Bool-cases (is_expected s t x)) [
    | inl p ↦
        let same : s' ≡ store_event json s (next_event s t k d m) = ground arith in
        ap (λ (r : EventStore D L). r.events) same
        ∙ store_event-events s (next_event s t k d m)
        ∙ ground arith
    | inr p ↦ absurd (ground arith)
  ]

  append_batch-events :
      (s s' : EventStore D L) (es : List (Event D)) (t : String) (batch : List (String × D))
      (x : Option ℕ)
      → append_batch json s t batch x ≡ some (s', es)
      → s'.events ≡ s.events ++ es
  unfolding append_batch
  append_batch-events s s' es t batch x q = elim (Bool-cases (is_expected s t x)) [
    | inl p ↦
        let same : s' ≡ (append_each json s t batch).0 = ground arith in
        ap (λ (r : EventStore D L). r.events) same ∙ append_each-events s t batch ∙ ground arith
    | inr p ↦ absurd (ground arith)
  ]

module _ {S D L : Type 0} (json : Json D L) (start : S) (h : Handlers S D) where
  -- A projection with the handlers `h` and its store, in any order of the calls. It is new when the
  -- store has any events; the store grows; the projection catches up, saves, loads and is reset.
  pub data Seen : EventStore D L → View S D → Type 0 where
    began :
        (s : EventStore D L) (name : String) (interval : Option ℕ)
        → Built json s
        → Seen s (record {
          projection = record (init name start interval) { handlers = h };
          snapshots = [];
        })
    grew :
        {s s' : EventStore D L} {v : View S D} (e : Event D) (t k : String) (d : D) (m : Option D)
        (x : Option ℕ)
        → append json s t k d m x ≡ some (s', e)
        → Seen s v
        → Seen s' v
    grew_batch :
        {s s' : EventStore D L} {v : View S D} (es : List (Event D)) (t : String)
        (batch : List (String × D)) (x : Option ℕ)
        → append_batch json s t batch x ≡ some (s', es)
        → Seen s v
        → Seen s' v
    caught_up : {s : EventStore D L} {v : View S D} → Seen s v → Seen s (catch_up s v).0
    saved : {s : EventStore D L} {v : View S D} → Seen s v → Seen s (save_snapshot v)
    loaded : {s : EventStore D L} {v : View S D} → Seen s v → Seen s (load_snapshot v).0
    was_reset : {s : EventStore D L} {v : View S D} → Seen s v → Seen s (reset start v)

  save_snapshot-IsUpTo :
      (es : List (Event D)) (v : View S D)
      → IsUpTo start h es v
      → IsUpTo start h es (save_snapshot v)
  unfolding save_snapshot
  save_snapshot-IsUpTo es v u =
      let snap' : Snapshot S = record {
        state = v.projection.state;
        position = v.projection.position;
      } in
      let found : (snap : Snapshot S)
          → Dict.get (Dict.put v.snapshots v.projection.name snap') v.projection.name ≡ some snap
          → snap' ≡ snap =
        λ snap g. ground (arith, get-put v.snapshots v.projection.name snap' v.projection.name) in
      record {
        handles = u.handles;
        within = u.within;
        has = u.has;
        saved_within =
            λ snap g. subst (λ (t : Snapshot S). t.position ≤ length es) (found snap g) u.within;
        saved_has = λ snap g.
            subst (λ (t : Snapshot S). t.state ≡ project h start (take t.position es))
              (found snap g) u.has;
      }

  Seen-IsUpTo :
      (s : EventStore D L) (v : View S D) → Seen s v → Built json s × IsUpTo start h s.events v
  unfolding init Dict.get
  Seen-IsUpTo s v (began s' name interval b) = (
    b,
    record {
      handles = refl;
      within = omega arith;
      has = refl;
      saved_within = λ snap g. cc;
      saved_has = λ snap g. cc;
    },
  )
  Seen-IsUpTo s v (grew {s = r} e t k d m x q seen) =
      let (b, u) = Seen-IsUpTo r v seen in
      (
        appended e t k d m x q b,
        subst (λ es. IsUpTo start h es v) (sym (append-events json r s e t k d m x q))
            (IsUpTo-append start h r.events (e ∷ []) v u),
      )
  Seen-IsUpTo s v (grew_batch {s = r} es t batch x q seen) =
      let (b, u) = Seen-IsUpTo r v seen in
      (
        batched es t batch x q b,
        subst (λ es'. IsUpTo start h es' v) (sym (append_batch-events json r s es t batch x q))
            (IsUpTo-append start h r.events es v u),
      )
  Seen-IsUpTo s v (caught_up {v = w} seen) =
      let (b, u) = Seen-IsUpTo s w seen in
      (b, (catch_up-IsUpTo start h s w (Built-IsIndexed json s b).numbered u).0)
  Seen-IsUpTo s v (saved {v = w} seen) =
      let (b, u) = Seen-IsUpTo s w seen in (b, save_snapshot-IsUpTo s.events w u)
  Seen-IsUpTo s v (loaded {v = w} seen) =
      let (b, u) = Seen-IsUpTo s w seen in (b, load_snapshot-IsUpTo start h s.events w u)
  Seen-IsUpTo s v (was_reset {v = w} seen) =
      let (b, u) = Seen-IsUpTo s w seen in (b, reset-IsUpTo start h s.events w u)

  caught_up-project :
      (s : EventStore D L) (v : View S D)
      → Built json s
      → IsUpTo start h s.events v
      → (catch_up s v).0.projection.state ≡ project h start s.events
  caught_up-project s v b u =
      let (c, p) = catch_up-IsUpTo start h s v (Built-IsIndexed json s b).numbered u in
      c.has
      ∙ ap (project h start)
          (take-all s.events (catch_up s v).0.projection.position (omega (arith, p)))

  -- Snapshots change nothing: after any calls on the store and on a projection (appends, catching
  -- up, saving and loading snapshots, resets), catching up gives the state that all events of the
  -- store make in their order, also when the latest snapshot is loaded before, and when the
  -- projection is reset before.
  pub snapshot_restores :
      (s : EventStore D L) (v : View S D)
      → Seen s v
      → ((catch_up s v).0.projection.state ≡ project h start s.events)
        × (((catch_up s (load_snapshot v).0).0.projection.state ≡ project h start s.events)
            × ((catch_up s (reset start v)).0.projection.state ≡ project h start s.events))
  snapshot_restores s v seen =
      let (b, u) = Seen-IsUpTo s v seen in
      (
        caught_up-project s v b u,
        (
          caught_up-project s (load_snapshot v).0 b (load_snapshot-IsUpTo start h s.events v u),
          caught_up-project s (reset start v) b (reset-IsUpTo start h s.events v u),
        ),
      )
