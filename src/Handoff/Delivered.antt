-- ===== src/Handoff/Delivered.antt =====
-- What a handoff of hinted-handoff/hinted_handoff.py brings to the recovered node.
use ddia_implementations.Prelude.{
  ℕ, zero, suc, ◌≤◌, String, true, false, List, [], ◌∷◌, some, ◌≡◌, ◌≢◌, arith, ap, sym, ◌∙◌, subst,
  inl, inr, Option-cases, Bool-cases, string_key, ◌==◌, get_elem?, All, ◌+◌,
}
use ddia_implementations.Dict
use ddia_implementations.Sets
use ddia_implementations.Dict.{Dict, get-put}
use ddia_implementations.Handoff.Node
use ddia_implementations.Handoff.Node.{
  Hint, is_expired, hints_for, hints_without, get_hints_for, remove_hints_for,
}
use ddia_implementations.Handoff.Store.{
  HintedHandoffStore, HandoffResult, deliver, hand_off, trigger_handoff,
}

abbrev late_one : HandoffResult → HandoffResult
late_one r = record r { hints_expired = r.hints_expired + 1 }

module _ {V : Type 0} where
  abbrev done_one : Hint V → HandoffResult → HandoffResult
  done_one h r = record r {
    hints_delivered = r.hints_delivered + 1;
    keys_recovered = Sets.insert h.key r.keys_recovered;
  }

  -- the node has the key at this version or a later one
  abbrev pub HasVersion : Node.Node V → String → ℕ → Type 0
  HasVersion n key version = (x : V × ℕ) × (Node.get n key ≡ some x) × (version ≤ x.1)

  -- a version that replaces an entry is not below it
  newer-le :
      (n : Node.Node V) (key k : String) (version v : ℕ) (x : V × ℕ)
      → key ≡ k
      → Dict.get n.store k ≡ some x
      → v ≤ x.1
      → Node.accepts (Dict.get n.store key) version ≡ true
      → v ≤ version
  newer-le n key k version v x q g l b =
      let found : Dict.get n.store key ≡ some x = ap (Dict.get n.store) q ∙ g in
      let accepted : Node.accepts (some x) version ≡ true =
        ap (λ o. Node.accepts o version) (sym found) ∙ b in
      ground (arith, accepted, l)

  pub put-HasVersion :
      (n : Node.Node V) (key k : String) (value : V) (version v : ℕ)
      → HasVersion n k v
      → HasVersion (Node.put n key value version) k v
  unfolding Node.put Node.get
  put-HasVersion n key k value version v (x, g, l) =
      elim (Bool-cases (Node.accepts (Dict.get n.store key) version)) [
        | inl b ↦ elim (string_key.dec key k) [
          | yes q ↦ (
            (value, version),
            ground (arith, get-put n.store key (value, version) k),
            newer-le n key k version v x q g l b,
          )
          | no q ↦ (x, ground (arith, get-put n.store key (value, version) k), l)
        ]
        | inr b ↦ (x, ground arith, l)
      ]

  pub put-HasVersion_own :
      (n : Node.Node V) (key : String) (value : V) (version : ℕ)
      → HasVersion (Node.put n key value version) key version
  unfolding Node.put Node.get
  put-HasVersion_own n key value version = elim (Option-cases (Dict.get n.store key)) [
    | inl q ↦
        ((value, version), ground (arith, get-put n.store key (value, version) key), omega arith)
    | inr (x, q) ↦ elim (Bool-cases (Node.accepts (Dict.get n.store key) version)) [
      | inl b ↦
          ((value, version), ground (arith, get-put n.store key (value, version) key), omega arith)
      | inr b ↦ (x, ground arith, ground arith)
    ]
  ]

  deliver-keeps :
      (n : Node.Node V) (hs : List (Hint V)) (t : ℕ) (r : HandoffResult) (k : String) (v : ℕ)
      → HasVersion n k v
      → HasVersion (deliver n hs t r).0 k v
  unfolding deliver
  deliver-keeps n [] t r k v h = h
  deliver-keeps n (x ∷ hs) t r k v h = elim (Bool-cases (is_expired x t)) [
    | inl b ↦
        let same : deliver n hs t (late_one r) ≡ deliver n (x ∷ hs) t r = ground arith in
        subst (λ d. HasVersion d.0 k v) same (deliver-keeps n hs t (late_one r) k v h)
    | inr b ↦
        let same : deliver (Node.put n x.key x.value x.version) hs t (done_one x r)
            ≡ deliver n (x ∷ hs) t r =
          ground arith in
        subst (λ d. HasVersion d.0 k v) same
          (deliver-keeps (Node.put n x.key x.value x.version) hs t (done_one x r) k v
            (put-HasVersion n x.key k x.value x.version v h))
  ]

  deliver-HasVersion :
      (n : Node.Node V) (hs : List (Hint V)) (t : ℕ) (r : HandoffResult) (i : ℕ) (h : Hint V)
      → get_elem? hs i ≡ some h
      → is_expired h t ≡ false
      → HasVersion (deliver n hs t r).0 h.key h.version
  unfolding deliver
  deliver-HasVersion n [] t r i h g e = cc
  deliver-HasVersion n (x ∷ hs) t r zero h g e =
      let mine : x ≡ h = ground arith in
      let fresh : is_expired x t ≡ false = ap (λ y. is_expired y t) mine ∙ e in
      let same : deliver (Node.put n x.key x.value x.version) hs t (done_one x r)
          ≡ deliver n (x ∷ hs) t r =
        ground arith in
      subst (λ (y : Hint V). HasVersion (deliver n (x ∷ hs) t r).0 y.key y.version) mine
        (subst (λ d. HasVersion d.0 x.key x.version) same
          (deliver-keeps (Node.put n x.key x.value x.version) hs t (done_one x r) x.key x.version
            (put-HasVersion_own n x.key x.value x.version)))
  deliver-HasVersion n (x ∷ hs) t r (suc i) h g e = elim (Bool-cases (is_expired x t)) [
    | inl b ↦
        let same : deliver n hs t (late_one r) ≡ deliver n (x ∷ hs) t r = ground arith in
        subst (λ d. HasVersion d.0 h.key h.version) same
          (deliver-HasVersion n hs t (late_one r) i h g e)
    | inr b ↦
        let same : deliver (Node.put n x.key x.value x.version) hs t (done_one x r)
            ≡ deliver n (x ∷ hs) t r =
          ground arith in
        subst (λ d. HasVersion d.0 h.key h.version) same
          (deliver-HasVersion (Node.put n x.key x.value x.version) hs t (done_one x r) i h g e)
  ]

  hints_for-get :
      (hs : List (Hint V)) (id : String) (i : ℕ) (h : Hint V)
      → get_elem? hs i ≡ some h
      → h.target_node_id ≡ id
      → (j : ℕ) × (get_elem? (hints_for hs id) j ≡ some h)
  unfolding hints_for
  hints_for-get [] id i h g e = cc
  hints_for-get (x ∷ hs) id zero h g e = (0, ground arith)
  hints_for-get (x ∷ hs) id (suc i) h g e =
      let (j, q) = hints_for-get hs id i h g e in
      elim (Bool-cases (x.target_node_id == id)) [
        | inl b ↦ (suc j, ground arith)
        | inr b ↦ (j, ground arith)
      ]

  hand_off-keeps :
      (n : Node.Node V) (id : String) (nodes : Dict String (Node.Node V)) (t : ℕ)
      (r : HandoffResult) (k : String) (v : ℕ)
      → HasVersion n k v
      → HasVersion (hand_off n id nodes t r).1.0 k v
  unfolding hand_off
  hand_off-keeps n id [] t r k v h = h
  hand_off-keeps n id ((p, m) ∷ nodes) t r k v h =
      let given = deliver n (get_hints_for m id) t r in
      elim (Bool-cases (m.node_id == id)) [
        | inl b ↦
            let same : (hand_off n id nodes t r).1.0 ≡ (hand_off n id ((p, m) ∷ nodes) t r).1.0 =
              ground arith in
            subst (λ d. HasVersion d k v) same (hand_off-keeps n id nodes t r k v h)
        | inr b ↦
            let same : (hand_off given.0 id nodes t given.1).1.0
                ≡ (hand_off n id ((p, m) ∷ nodes) t r).1.0 =
              ground arith in
            subst (λ d. HasVersion d k v) same
              (hand_off-keeps given.0 id nodes t given.1 k v
                (deliver-keeps n (get_hints_for m id) t r k v h))
      ]

  hand_off-HasVersion :
      (n : Node.Node V) (id : String) (nodes : Dict String (Node.Node V)) (t : ℕ)
      (r : HandoffResult) (p : String) (m : Node.Node V) (i : ℕ) (h : Hint V)
      → Dict.get nodes p ≡ some m
      → m.node_id ≢ id
      → get_elem? m.hints i ≡ some h
      → h.target_node_id ≡ id
      → is_expired h t ≡ false
      → HasVersion (hand_off n id nodes t r).1.0 h.key h.version
  unfolding hand_off Dict.get get_hints_for
  hand_off-HasVersion n id [] t r p m i h g ne q e x = cc
  hand_off-HasVersion n id ((k, y) ∷ nodes) t r p m i h g ne q e x =
      let given = deliver n (get_hints_for y id) t r in
      elim (Bool-cases (y.node_id == id)) [
        | inl b ↦
            let same : (hand_off n id nodes t r).1.0 ≡ (hand_off n id ((k, y) ∷ nodes) t r).1.0 =
              ground arith in
            subst (λ d. HasVersion d h.key h.version) same
              (hand_off-HasVersion n id nodes t r p m i h
                (elim (string_key.dec k p) [
                  | yes z ↦
                      let mine : y ≡ m = ground arith in
                      let own : y.node_id ≡ id = ground arith in
                      absurd (ne (ap (λ (u : Node.Node V). u.node_id) (sym mine) ∙ own))
                  | no z ↦ ground arith
                ])
                ne q e x)
        | inr b ↦
            let same : (hand_off given.0 id nodes t given.1).1.0
                ≡ (hand_off n id ((k, y) ∷ nodes) t r).1.0 =
              ground arith in
            elim (string_key.dec k p) [
              | yes z ↦
                  let mine : m ≡ y = ground arith in
                  let (j, w) =
                    hints_for-get y.hints id i h
                      (subst (λ (u : Node.Node V). get_elem? u.hints i ≡ some h) mine q) e in
                  subst (λ d. HasVersion d h.key h.version) same
                    (hand_off-keeps given.0 id nodes t given.1 h.key h.version
                      (deliver-HasVersion n (get_hints_for y id) t r j h w x))
              | no z ↦
                  subst (λ d. HasVersion d h.key h.version) same
                    (hand_off-HasVersion given.0 id nodes t given.1 p m i h (ground arith) ne q e x)
            ]
      ]

  hints_without-All :
      (hs : List (Hint V)) (id : String) → All (λ h. h.target_node_id ≢ id) (hints_without hs id)
  unfolding hints_without
  hints_without-All [] id = tt
  hints_without-All (x ∷ hs) id = elim (Bool-cases (x.target_node_id == id)) [
    | inl b ↦
        let same : hints_without hs id ≡ hints_without (x ∷ hs) id = ground arith in
        subst (All (λ h. h.target_node_id ≢ id)) same (hints_without-All hs id)
    | inr b ↦
        let same : x ∷ hints_without hs id ≡ hints_without (x ∷ hs) id = ground arith in
        let other : x.target_node_id ≢ id = λ q. ground arith in
        subst (All (λ h. h.target_node_id ≢ id)) same (other, hints_without-All hs id)
  ]

  hand_off-All :
      (n : Node.Node V) (id : String) (nodes : Dict String (Node.Node V)) (t : ℕ)
      (r : HandoffResult) (p : String) (m : Node.Node V)
      → Dict.get (hand_off n id nodes t r).0 p ≡ some m
      → m.node_id ≢ id
      → All (λ h. h.target_node_id ≢ id) m.hints
  unfolding hand_off Dict.get remove_hints_for
  hand_off-All n id [] t r p m g ne = cc
  hand_off-All n id ((k, y) ∷ nodes) t r p m g ne =
      let given = deliver n (get_hints_for y id) t r in
      elim (Bool-cases (y.node_id == id)) [
        | inl b ↦ elim (string_key.dec k p) [
          | yes z ↦
              let mine : y ≡ m = ground arith in
              let own : y.node_id ≡ id = ground arith in
              absurd (ne (ap (λ (u : Node.Node V). u.node_id) (sym mine) ∙ own))
          | no z ↦ hand_off-All n id nodes t r p m (ground arith) ne
        ]
        | inr b ↦ elim (string_key.dec k p) [
          | yes z ↦
              let mine : record y { hints = hints_without y.hints id } ≡ m = ground arith in
              subst (λ (u : Node.Node V). All (λ h. h.target_node_id ≢ id) u.hints) mine
                (hints_without-All y.hints id)
          | no z ↦ hand_off-All given.0 id nodes t given.1 p m (ground arith) ne
        ]
      ]

  -- A handoff loses no write: when `trigger_handoff` runs for a node that exists, it returns, and each
  -- hint for it that any other node held, and that has not expired, has reached it: the recovered
  -- node has the key of the hint at the version of the hint or a later one.
  pub trigger_handoff-HasVersion :
      (s : HintedHandoffStore V) (id p : String) (t i : ℕ) (recovered m : Node.Node V) (h : Hint V)
      → Dict.get s.nodes id ≡ some recovered
      → Dict.get s.nodes p ≡ some m
      → m.node_id ≢ id
      → get_elem? m.hints i ≡ some h
      → h.target_node_id ≡ id
      → is_expired h t ≡ false
      → (s' : HintedHandoffStore V) × (report : HandoffResult) × (n' : Node.Node V)
        × (trigger_handoff s id t ≡ some (s', report))
        × (Dict.get s'.nodes id ≡ some n')
        × HasVersion n' h.key h.version
  unfolding trigger_handoff
  trigger_handoff-HasVersion s id p t i recovered m h g gm ne q e x =
      let start : HandoffResult = record {
        hints_delivered = 0;
        hints_expired = 0;
        keys_recovered = [];
      } in
      let done = hand_off recovered id s.nodes t start in
      (
        record s { nodes = Dict.put done.0 id done.1.0 },
        done.1.1,
        done.1.0,
        ground arith,
        ground (arith, get-put done.0 id done.1.0 id),
        hand_off-HasVersion recovered id s.nodes t start p m i h gm ne q e x,
      )

  -- After a handoff no other node holds a hint for the recovered node.
  pub trigger_handoff-All :
      (s s' : HintedHandoffStore V) (id p : String) (t : ℕ) (report : HandoffResult)
      (m : Node.Node V)
      → trigger_handoff s id t ≡ some (s', report)
      → Dict.get s'.nodes p ≡ some m
      → p ≢ id
      → m.node_id ≢ id
      → All (λ h. h.target_node_id ≢ id) m.hints
  unfolding trigger_handoff
  trigger_handoff-All s s' id p t report m e g np ne = elim (Option-cases (Dict.get s.nodes id)) [
    | inl q ↦ absurd (ground arith)
    | inr (recovered, q) ↦
        let start : HandoffResult = record {
          hints_delivered = 0;
          hints_expired = 0;
          keys_recovered = [];
        } in
        let done = hand_off recovered id s.nodes t start in
        let nodes : Dict.put done.0 id done.1.0 ≡ s'.nodes = ground arith in
        let found : Dict.get done.0 p ≡ some m =
          ground (arith, ap (λ d. Dict.get d p) nodes, get-put done.0 id done.1.0 p, np) in
        hand_off-All recovered id s.nodes t start p m found ne
  ]
