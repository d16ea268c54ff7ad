-- ===== src/Events/Indexed.antt =====
-- The index of the streams in event-sourcing-store/event_store.py, and the file that it is rebuilt from.
use ddia_implementations.Prelude.{
  ℕ, ◌+◌, ◌-◌, String, Bool, false, List, [], ◌∷◌, ◌++◌, Option, none, some, if◌then◌else◌, ◌==◌,
  string_key, nat_key, length, get_or, get_elem?, ◌≡◌, refl, arith, ap, ◌∙◌, subst, inl, inr,
  Bool-cases, length-append, append-nil, suc,
}
use ddia_implementations.Dict
use ddia_implementations.Dict.{Dict, get-put}
use ddia_implementations.Events.Store.{
  Event, EventStore, Json, empty, stream_version, add_event, is_expected, pick, read_stream,
  read_from, next_event, persist_event, store_event, append, append_each, append_batch,
}

module _ {D : Type 0} where
  -- numbered from `n + 1` on
  abbrev pub IsNumbered : ℕ → List (Event D) → Type 0
  IsNumbered n [] = Unit
  IsNumbered n (e ∷ es) = (e.event_id ≡ n + 1) × IsNumbered (n + 1) es

  -- the events of one stream, and where they stand
  abbrev pub in_stream : String → List (Event D) → List (Event D)
  in_stream stream_id [] = []
  in_stream stream_id (e ∷ es) =
      if e.stream_id == stream_id then e ∷ in_stream stream_id es else in_stream stream_id es

  abbrev pub indices : String → ℕ → List (Event D) → List ℕ
  indices stream_id i [] = []
  indices stream_id i (e ∷ es) =
      if e.stream_id == stream_id
      then i ∷ indices stream_id (i + 1) es
      else indices stream_id (i + 1) es

  IsNumbered-append :
      (n : ℕ) (es : List (Event D)) (e : Event D)
      → IsNumbered n es
      → e.event_id ≡ n + length es + 1
      → IsNumbered n (es ++ e ∷ [])
  IsNumbered-append n [] e h q = (omega (arith, q), tt)
  IsNumbered-append n (x ∷ es) e h q = (h.0, IsNumbered-append (n + 1) es e h.1 (omega (arith, q)))

  indices-append :
      (t : String) (i : ℕ) (es fs : List (Event D))
      → indices t i (es ++ fs) ≡ indices t i es ++ indices t (i + length es) fs
  indices-append t i [] fs = ap (λ j. indices t j fs) (omega arith)
  indices-append t i (e ∷ es) fs =
      let at : i + 1 + length es ≡ i + length (e ∷ es) = omega arith in
      let rest : indices t (i + 1) (es ++ fs)
          ≡ indices t (i + 1) es ++ indices t (i + length (e ∷ es)) fs =
        indices-append t (i + 1) es fs ∙ ap (λ j. indices t (i + 1) es ++ indices t j fs) at in
      elim (Bool-cases (e.stream_id == t)) [ inl q ↦ ground arith | inr q ↦ ground arith ]

  length-indices :
      (t : String) (i : ℕ) (es : List (Event D)) → length (indices t i es) ≡ length (in_stream t es)
  length-indices t i [] = refl
  length-indices t i (e ∷ es) =
      let rest = length-indices t (i + 1) es in
      elim (Bool-cases (e.stream_id == t)) [ inl q ↦ ground arith | inr q ↦ ground arith ]

  pick-indices :
      (events es : List (Event D)) (t : String) (i v : ℕ)
      → ((j k : ℕ) → i + j ≡ k → get_elem? events k ≡ get_elem? es j)
      → pick events (indices t i es) v ≡ some (read_from (in_stream t es) v)
  unfolding pick read_from
  pick-indices events [] t i v h = refl
  pick-indices events (e ∷ es) t i v h =
      let here : get_elem? events i ≡ some e = h 0 i (omega arith) in
      let rest = pick-indices events es t (i + 1) v (λ j k q. h (suc j) k (omega arith)) in
      elim (Bool-cases (e.stream_id == t)) [
        | inl q ↦ ground (arith, here, rest)
        | inr q ↦ ground (arith, rest)
      ]

module _ {D L : Type 0} where
  -- the events are numbered from 1, and each stream has the indices of its events
  pub record IsIndexed (s : EventStore D L) : Type 0 where
    pub numbered : IsNumbered 0 s.events
    pub indexed : (t : String) → get_or (Dict.get s.streams t) [] ≡ indices t 0 s.events

  add_event-IsIndexed :
      (s : EventStore D L) (e : Event D)
      → e.event_id ≡ length s.events + 1
      → IsIndexed s
      → IsIndexed (add_event s e)
  unfolding add_event
  add_event-IsIndexed s e q v = record {
    numbered = IsNumbered-append 0 s.events e v.numbered (omega (arith, q));
    indexed = λ t.
        let at : length (s.events ++ e ∷ []) - 1 ≡ 0 + length s.events =
          omega (arith, length-append s.events (e ∷ [])) in
        elim (string_key.dec e.stream_id t) [
          | yes p ↦ ground (
            arith,
            get-put s.streams e.stream_id
                (get_or (Dict.get s.streams e.stream_id) []
                  ++ (length (s.events ++ e ∷ []) - 1) ∷ [])
                t,
            v.indexed t,
            indices-append t 0 s.events (e ∷ []),
            at,
          )
          | no p ↦ ground (
            arith,
            get-put s.streams e.stream_id
                (get_or (Dict.get s.streams e.stream_id) []
                  ++ (length (s.events ++ e ∷ []) - 1) ∷ [])
                t,
            v.indexed t,
            indices-append t 0 s.events (e ∷ []),
            append-nil (indices t 0 s.events),
          )
        ];
  }

  relines-IsIndexed :
      (s : EventStore D L) (lines : List L) → IsIndexed s → IsIndexed (record s { lines = lines })
  relines-IsIndexed s lines v = record { numbered = v.numbered; indexed = v.indexed }

module _ {D L : Type 0} (json : Json D L) where
  store_event-IsIndexed :
      (s : EventStore D L) (e : Event D)
      → e.event_id ≡ length s.events + 1
      → IsIndexed s
      → IsIndexed (store_event json s e)
  unfolding persist_event
  store_event-IsIndexed s e q v = elim (Bool-cases (add_event s e).persists) [
    | inl p ↦ subst IsIndexed (ground arith) (
        relines-IsIndexed (add_event s e) ((add_event s e).lines ++ json.dumps e ∷ [])
          (add_event-IsIndexed s e q v))
    | inr p ↦ subst IsIndexed (ground arith) (add_event-IsIndexed s e q v)
  ]

  append_each-IsIndexed :
      (s : EventStore D L) (t : String) (es : List (String × D))
      → IsIndexed s
      → IsIndexed (append_each json s t es).0
  unfolding append_each
  append_each-IsIndexed s t [] v = v
  append_each-IsIndexed s t ((k, d) ∷ es) v =
      append_each-IsIndexed (store_event json s (next_event s t k d none)) t es
        (store_event-IsIndexed s (next_event s t k d none) refl v)

  -- the stores that come about by appending, from an empty store on
  pub data Built : EventStore D L → Type 0 where
    started : (persists : Bool) → Built (empty persists)
    appended :
        {s s' : EventStore D L} (e : Event D) (t k : String) (d : D) (m : Option D)
        (expected : Option ℕ)
        → append json s t k d m expected ≡ some (s', e)
        → Built s
        → Built s'
    batched :
        {s s' : EventStore D L} (es : List (Event D)) (t : String) (batch : List (String × D))
        (expected : Option ℕ)
        → append_batch json s t batch expected ≡ some (s', es)
        → Built s
        → Built s'

  pub Built-IsIndexed : (s : EventStore D L) → Built s → IsIndexed s
  unfolding append append_batch empty Dict.get
  Built-IsIndexed s (started b) = record { numbered = tt; indexed = λ t. refl }
  Built-IsIndexed s (appended {s = r} e t k d m x q b) = elim (Bool-cases (is_expected r t x)) [
    | inl p ↦
        let same : store_event json r (next_event r t k d m) ≡ s = ground arith in
        subst IsIndexed same
          (store_event-IsIndexed r (next_event r t k d m) refl (Built-IsIndexed r b))
    | inr p ↦ absurd (ground arith)
  ]
  Built-IsIndexed s (batched {s = r} es t batch x q b) = elim (Bool-cases (is_expected r t x)) [
    | inl p ↦
        let same : (append_each json r t batch).0 ≡ s = ground arith in
        subst IsIndexed same (append_each-IsIndexed r t batch (Built-IsIndexed r b))
    | inr p ↦ absurd (ground arith)
  ]

  pub read_stream-Built :
      (s : EventStore D L) (t : String) (v : ℕ)
      → Built s
      → (read_stream s t v ≡ some (read_from (in_stream t s.events) v))
        × (stream_version s t ≡ length (in_stream t s.events))
  unfolding read_stream stream_version
  read_stream-Built s t v b =
      let i = Built-IsIndexed s b in
      (
        ap (λ is. pick s.events is v) (i.indexed t)
            ∙ pick-indices s.events s.events t 0 v
                (λ j k e. ap (get_elem? s.events) (omega (arith, e))),
        ap length (i.indexed t) ∙ length-indices t 0 s.events,
      )

  store_event-stream_version :
      (s : EventStore D L) (e : Event D)
      → stream_version (store_event json s e) e.stream_id ≡ stream_version s e.stream_id + 1
  unfolding stream_version persist_event add_event
  store_event-stream_version s e =
      let old : List ℕ = get_or (Dict.get s.streams e.stream_id) [] in
      let i : ℕ = length (s.events ++ e ∷ []) - 1 in
      let streams : (store_event json s e).streams
          ≡ Dict.put s.streams e.stream_id (old ++ i ∷ []) =
        ground arith in
      ap (λ d. length (get_or (Dict.get d e.stream_id) [])) streams
      ∙ ground (
        arith,
        get-put s.streams e.stream_id (old ++ i ∷ []) e.stream_id,
        length-append old (i ∷ []),
      )

  append-stream_version :
      (s s' : EventStore D L) (t k : String) (d : D) (m : Option D) (x : Option ℕ) (e : Event D)
      → append json s t k d m x ≡ some (s', e)
      → stream_version s' t ≡ stream_version s t + 1
  unfolding append
  append-stream_version s s' t k d m x e q = elim (Bool-cases (is_expected s t x)) [
    | inl p ↦
        let same : s' ≡ store_event json s (next_event s t k d m) = ground arith in
        ap (λ r. stream_version r t) same ∙ store_event-stream_version s (next_event s t k d m)
    | inr p ↦ absurd (ground arith)
  ]

  -- Two writers that expect the same version do not both succeed: after an `append` that gives an
  -- event of a stream, an `append` and an `append_batch` that expect the version the stream had before
  -- raise ConcurrencyConflict.
  pub append-refuses_second :
      (s s' : EventStore D L) (t k k' : String) (d d' : D) (m m' : Option D) (x : Option ℕ)
      (e : Event D) (batch : List (String × D))
      → append json s t k d m x ≡ some (s', e)
      → (append json s' t k' d' m' (some (stream_version s t)) ≡ none)
        × (append_batch json s' t batch (some (stream_version s t)) ≡ none)
  unfolding append append_batch is_expected
  append-refuses_second s s' t k k' d d' m m' x e batch q =
      let grown = append-stream_version s s' t k d m x e q in
      let late : is_expected s' t (some (stream_version s t)) ≡ false = ground (arith, grown) in
      (ground (arith, late), ground (arith, late))
