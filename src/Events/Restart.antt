-- ===== src/Events/Restart.antt =====
-- `_load_from_file` of event-sourcing-store/event_store.py against the store that wrote the file.
use ddia_implementations.Prelude.{
  String, true, false, List, [], ◌∷◌, ◌++◌, none, some, ◌≡◌, refl, arith, ap, sym, ◌∙◌, subst, inl,
  inr, Bool-cases, map,
}
use ddia_implementations.Events.Store.{
  Event, EventStore, Json, empty, add_event, is_expected, next_event, persist_event, store_event,
  append, append_each, append_batch, load_lines, load_from_file,
}
use ddia_implementations.Events.Indexed.{Built, started, appended, batched}

module _ {D L : Type 0} where
  abbrev pub rebuild : EventStore D L → List (Event D) → EventStore D L
  rebuild s [] = s
  rebuild s (e ∷ es) = rebuild (add_event s e) es

  abbrev blank : List L → EventStore D L
  blank lines = record { events = []; streams = []; persists = true; lines = lines }

  rebuild-append :
      (s : EventStore D L) (es : List (Event D)) (e : Event D)
      → rebuild s (es ++ e ∷ []) ≡ add_event (rebuild s es) e
  rebuild-append s [] e = refl
  rebuild-append s (x ∷ es) e = rebuild-append (add_event s x) es e

module _ {D L : Type 0} (json : Json D L) where
  -- what json and `strip` promise of a line that `_persist_event` writes
  pub record IsFaithful : Type 0 where
    pub reads : (e : Event D) → json.loads (json.dumps e) ≡ some e
    pub visible : (e : Event D) → json.is_blank (json.dumps e) ≡ false

  load_lines-dumps :
      (s : EventStore D L) (es : List (Event D))
      → IsFaithful
      → load_lines json s (map json.dumps es) ≡ some (rebuild s es)
  unfolding load_lines
  load_lines-dumps s [] f = refl
  load_lines-dumps s (e ∷ es) f =
      ground (arith, load_lines-dumps (add_event s e) es f, f.reads e, f.visible e)

  -- the file has the events, and the store is what they make, whatever the file
  record IsPersisted (s : EventStore D L) : Type 0 where
    persisting : s.persists ≡ true
    written : s.lines ≡ map json.dumps s.events
    made : (lines : List L) → rebuild (blank lines) s.events ≡ record s { lines = lines }

  map-append :
      (es : List (Event D)) (e : Event D)
      → map json.dumps (es ++ e ∷ []) ≡ map json.dumps es ++ json.dumps e ∷ []
  map-append [] e = refl
  map-append (x ∷ es) e = ap (λ t. json.dumps x ∷ t) (map-append es e)

  store_event-IsPersisted :
      (s : EventStore D L) (e : Event D) → IsPersisted s → IsPersisted (store_event json s e)
  unfolding persist_event add_event
  store_event-IsPersisted s e v =
      let grown : EventStore D L = record (add_event s e) {
        lines = s.lines ++ json.dumps e ∷ [];
      } in
      let same : grown ≡ store_event json s e = ground (arith, v.persisting) in
      subst IsPersisted same (record {
        persisting = v.persisting;
        written = ap (λ t. t ++ json.dumps e ∷ []) v.written ∙ sym (map-append s.events e);
        made = λ lines.
            rebuild-append (blank lines) s.events e ∙ ap (λ r. add_event r e) (v.made lines);
      })

  store_event-persists :
      (s : EventStore D L) (e : Event D) → (store_event json s e).persists ≡ s.persists
  unfolding persist_event add_event
  store_event-persists s e = ground arith

  append_each-IsPersisted :
      (s : EventStore D L) (t : String) (es : List (String × D))
      → IsPersisted s
      → IsPersisted (append_each json s t es).0
  unfolding append_each
  append_each-IsPersisted s t [] v = v
  append_each-IsPersisted s t ((k, d) ∷ es) v =
      append_each-IsPersisted (store_event json s (next_event s t k d none)) t es
        (store_event-IsPersisted s (next_event s t k d none) v)

  append_each-persists :
      (s : EventStore D L) (t : String) (es : List (String × D))
      → (append_each json s t es).0.persists ≡ s.persists
  unfolding append_each
  append_each-persists s t [] = refl
  append_each-persists s t ((k, d) ∷ es) =
      append_each-persists (store_event json s (next_event s t k d none)) t es
      ∙ store_event-persists s (next_event s t k d none)

  Built-IsPersisted : (s : EventStore D L) → s.persists ≡ true → Built json s → IsPersisted s
  unfolding append append_batch empty
  Built-IsPersisted s p (started b) = record {
    persisting = p;
    written = refl;
    made = λ lines. ap (λ t. record (blank lines) { persists = t }) (sym p);
  }
  Built-IsPersisted s p (appended {s = r} e t k d m x q b) = elim (Bool-cases (is_expected r t x)) [
    | inl h ↦
        let n : Event D = next_event r t k d m in
        let same : store_event json r n ≡ s = ground arith in
        let on : r.persists ≡ true =
          sym (store_event-persists r n) ∙ ap (λ (u : EventStore D L). u.persists) same ∙ p in
        subst IsPersisted same (store_event-IsPersisted r n (Built-IsPersisted r on b))
    | inr h ↦ absurd (ground arith)
  ]
  Built-IsPersisted s p (batched {s = r} es t batch x q b) = elim (Bool-cases (is_expected r t x)) [
    | inl h ↦
        let same : (append_each json r t batch).0 ≡ s = ground arith in
        let on : r.persists ≡ true =
          sym (append_each-persists r t batch) ∙ ap (λ (u : EventStore D L). u.persists) same ∙ p in
        subst IsPersisted same (append_each-IsPersisted r t batch (Built-IsPersisted r on b))
    | inr h ↦ absurd (ground arith)
  ]

  pub load_from_file-Built :
      (s : EventStore D L)
      → IsFaithful
      → Built json s
      → s.persists ≡ true
      → load_from_file json s.lines ≡ some s
  unfolding load_from_file
  load_from_file-Built s f b p =
      let v = Built-IsPersisted s p b in
      ap (load_lines json (blank s.lines)) v.written
      ∙ load_lines-dumps (blank s.lines) s.events f
      ∙ ap some (v.made s.lines)
