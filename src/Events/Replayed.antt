-- ===== src/Events/Replayed.antt =====
-- Projections of event-sourcing-store/event_store.py against a replay of all events.
use ddia_implementations.Prelude.{
  ℕ, zero, suc, ◌+◌, ◌≤◌, List, [], ◌∷◌, ◌++◌, some, ◌≡◌, refl, arith, ap, sym, ◌∙◌, subst, inl,
  inr, Bool-cases, Option-cases, length, take, drop, string_key, take-append, length-append,
  drop-nil, length-drop,
}
use ddia_implementations.Dict
use ddia_implementations.Dict.{Dict, get-put}
use ddia_implementations.Events.Store.{Event, EventStore, read_from, read_all}
use ddia_implementations.Events.Indexed.{IsNumbered}
use ddia_implementations.Events.Projection.{
  Snapshot, View, Handlers, handle, process, process_all, catch_up, load_snapshot, reset,
  save_snapshot, is_due,
}

module _ {D : Type 0} where
  read_from-all :
      (n m : ℕ) (es : List (Event D)) → IsNumbered n es → m ≤ n + 1 → read_from es m ≡ es
  unfolding read_from
  read_from-all n m [] h l = refl
  read_from-all n m (e ∷ es) h l = ground (arith, read_from-all (n + 1) m es h.1 (omega arith), h.0)

  -- `read_all` after a position gives the events that stand behind it
  read_from-drop :
      (n p k : ℕ) (es : List (Event D))
      → IsNumbered n es
      → n + k ≡ p
      → read_from es (p + 1) ≡ drop k es
  unfolding read_from
  read_from-drop n p k [] h l = sym (drop-nil k)
  read_from-drop n p zero (e ∷ es) h l = read_from-all n (p + 1) (e ∷ es) h (omega (arith, l))
  read_from-drop n p (suc k) (e ∷ es) h l =
      ground (arith, read_from-drop (n + 1) p k es h.1 (omega (arith, l)), h.0)

  -- what stands at the first event behind a position
  drop-cons :
      (p : ℕ) (es fs : List (Event D)) (e : Event D)
      → drop p es ≡ e ∷ fs
      → (take (suc p) es ≡ take p es ++ e ∷ []) × ((drop (suc p) es ≡ fs) × (suc p ≤ length es))
  drop-cons zero [] fs e q = cc
  drop-cons zero (x ∷ es) fs e q = (ground arith, (ground arith, omega arith))
  drop-cons (suc p) [] fs e q = cc
  drop-cons (suc p) (x ∷ es) fs e q =
      let rest = drop-cons p es fs e q in
      (ap (λ t. x ∷ t) rest.0, (rest.1.0, omega (arith, rest.1.1)))

  IsNumbered-drop :
      (k n : ℕ) (es : List (Event D)) → IsNumbered n es → IsNumbered (n + k) (drop k es)
  IsNumbered-drop zero n es h = subst (λ j. IsNumbered j es) (omega arith) h
  IsNumbered-drop (suc k) n [] h = tt
  IsNumbered-drop (suc k) n (e ∷ es) h =
      subst (λ j. IsNumbered j (drop k es)) (omega arith) (IsNumbered-drop k (n + 1) es h.1)

module _ {S D : Type 0} where
  -- the state that these events make
  abbrev pub project : Handlers S D → S → List (Event D) → S
  project h state [] = state
  project h state (e ∷ es) = project h (handle h state e) es

  project-append :
      (h : Handlers S D) (state : S) (es fs : List (Event D))
      → project h state (es ++ fs) ≡ project h (project h state es) fs
  project-append h state [] fs = refl
  project-append h state (e ∷ es) fs = project-append h (handle h state e) es fs

  -- the projection and its snapshot have the states of the first events
  pub record IsUpTo (start : S) (h : Handlers S D) (es : List (Event D)) (v : View S D)
      : Type 0 where
    pub handles : v.projection.handlers ≡ h
    pub within : v.projection.position ≤ length es
    pub has : v.projection.state ≡ project h start (take v.projection.position es)
    pub saved_within :
        (snap : Snapshot S)
        → Dict.get v.snapshots v.projection.name ≡ some snap
        → snap.position ≤ length es
    pub saved_has :
        (snap : Snapshot S)
        → Dict.get v.snapshots v.projection.name ≡ some snap
        → snap.state ≡ project h start (take snap.position es)

  -- more events do not touch it
  pub IsUpTo-append :
      (start : S) (h : Handlers S D) (es fs : List (Event D)) (v : View S D)
      → IsUpTo start h es v
      → IsUpTo start h (es ++ fs) v
  IsUpTo-append start h es fs v u = record {
    handles = u.handles;
    within = omega (arith, u.within, length-append es fs);
    has = u.has ∙ ap (project h start) (sym (take-append es fs v.projection.position u.within));
    saved_within = λ snap g. omega (arith, u.saved_within snap g, length-append es fs);
    saved_has = λ snap g.
        u.saved_has snap g
        ∙ ap (project h start) (sym (take-append es fs snap.position (u.saved_within snap g)));
  }

  process-IsUpTo :
      (start : S) (h : Handlers S D) (es : List (Event D)) (v : View S D) (e : Event D)
      → IsUpTo start h es v
      → take e.event_id es ≡ take v.projection.position es ++ e ∷ []
      → e.event_id ≤ length es
      → IsUpTo start h es (process v e) × ((process v e).projection.position ≡ e.event_id)
  unfolding process save_snapshot
  process-IsUpTo start h es v e u q l =
      let state' : S = handle v.projection.handlers v.projection.state e in
      let new : state' ≡ project h start (take e.event_id es) =
        ap (λ k. handle k v.projection.state e) u.handles
        ∙ ap (λ t. handle h t e) u.has
        ∙ sym (project-append h start (take v.projection.position es) (e ∷ []))
        ∙ ap (project h start) (sym q) in
      let snap' : Snapshot S = record { state = state'; position = e.event_id } in
      elim (Bool-cases
        (is_due v.projection.snapshot_interval (v.projection.events_since_snapshot + 1))) [
          | inl d ↦
              let next : View S D = record {
                projection = record v.projection {
                  state = state';
                  position = e.event_id;
                  events_since_snapshot = 0;
                };
                snapshots = Dict.put v.snapshots v.projection.name snap';
              } in
              let same : next ≡ process v e = ground arith in
              let found : (snap : Snapshot S)
                  → Dict.get next.snapshots v.projection.name ≡ some snap
                  → snap' ≡ snap =
                λ snap g.
                  ground (arith, get-put v.snapshots v.projection.name snap' v.projection.name) in
              subst (λ (w : View S D). IsUpTo start h es w × (w.projection.position ≡ e.event_id))
                same
                (
                  record {
                    handles = u.handles;
                    within = l;
                    has = new;
                    saved_within = λ snap g.
                        subst (λ (t : Snapshot S). t.position ≤ length es) (found snap g) l;
                    saved_has = λ snap g.
                        subst (λ (t : Snapshot S). t.state ≡ project h start (take t.position es))
                          (found snap g) new;
                  },
                  refl,
                )
          | inr d ↦
              let next : View S D = record v {
                projection = record v.projection {
                  state = state';
                  position = e.event_id;
                  events_since_snapshot = v.projection.events_since_snapshot + 1;
                };
              } in
              let same : next ≡ process v e = ground arith in
              subst (λ (w : View S D). IsUpTo start h es w × (w.projection.position ≡ e.event_id))
                same
                (
                  record {
                    handles = u.handles;
                    within = l;
                    has = new;
                    saved_within = u.saved_within;
                    saved_has = u.saved_has;
                  },
                  refl,
                )
        ]

  process_all-IsUpTo :
      (start : S) (h : Handlers S D) (es fs : List (Event D)) (v : View S D) (c p : ℕ)
      → IsUpTo start h es v
      → v.projection.position ≡ p
      → drop p es ≡ fs
      → IsNumbered p fs
      → IsUpTo start h es (process_all v fs c).0
        × ((process_all v fs c).0.projection.position ≡ p + length fs)
  unfolding process_all
  process_all-IsUpTo start h es [] v c p u r q n = (u, omega (arith, r))
  process_all-IsUpTo start h es (e ∷ fs) v c p u r q n =
      let at = drop-cons p es fs e q in
      let id : e.event_id ≡ suc p = omega (arith, n.0) in
      let first =
        process-IsUpTo start h es v e u
          (ap (λ k. take k es) id ∙ at.0 ∙ ap (λ k. take k es ++ e ∷ []) (sym r))
          (omega (arith, at.1.1, id)) in
      let rest =
        process_all-IsUpTo start h es fs (process v e) (c + 1) (suc p) first.0 (first.1 ∙ id) at.1.0
          (subst (λ k. IsNumbered k fs) (omega arith) n.1) in
      (rest.0, omega (arith, rest.1))

  -- `catch_up` brings a projection to the end of the store
  pub catch_up-IsUpTo :
      {L : Type 0} (start : S) (h : Handlers S D) (s : EventStore D L) (v : View S D)
      → IsNumbered 0 s.events
      → IsUpTo start h s.events v
      → IsUpTo start h s.events (catch_up s v).0
        × ((catch_up s v).0.projection.position ≡ length s.events)
  unfolding catch_up read_all
  catch_up-IsUpTo start h s v n u =
      let p : ℕ = v.projection.position in
      let behind : read_from s.events (p + 1) ≡ drop p s.events =
        read_from-drop 0 p p s.events n (omega arith) in
      let done = process_all-IsUpTo start h s.events (drop p s.events) v 0 p u refl refl (
        subst (λ k. IsNumbered k (drop p s.events)) (omega arith)
          (IsNumbered-drop p 0 s.events n)) in
      subst
        (λ fs.
          IsUpTo start h s.events (process_all v fs 0).0
          × ((process_all v fs 0).0.projection.position ≡ length s.events))
        (sym behind) (done.0, omega (arith, done.1, length-drop s.events p, u.within))

  pub load_snapshot-IsUpTo :
      (start : S) (h : Handlers S D) (es : List (Event D)) (v : View S D)
      → IsUpTo start h es v
      → IsUpTo start h es (load_snapshot v).0
  unfolding load_snapshot
  load_snapshot-IsUpTo start h es v u =
      elim (Option-cases (Dict.get v.snapshots v.projection.name)) [
        | inl q ↦ subst (IsUpTo start h es) (ground arith) u
        | inr (snap, q) ↦
            let next : View S D = record v {
              projection = record v.projection { state = snap.state; position = snap.position };
            } in
            let same : next ≡ (load_snapshot v).0 = ground arith in
            subst (IsUpTo start h es) same (record {
              handles = u.handles;
              within = u.saved_within snap q;
              has = u.saved_has snap q;
              saved_within = u.saved_within;
              saved_has = u.saved_has;
            })
      ]

  pub reset-IsUpTo :
      (start : S) (h : Handlers S D) (es : List (Event D)) (v : View S D)
      → IsUpTo start h es v
      → IsUpTo start h es (reset start v)
  unfolding reset
  reset-IsUpTo start h es v u = record {
    handles = u.handles;
    within = omega arith;
    has = refl;
    saved_within = u.saved_within;
    saved_has = u.saved_has;
  }
