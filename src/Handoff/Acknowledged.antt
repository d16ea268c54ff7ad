-- ===== src/Handoff/Acknowledged.antt =====
-- What a write of hinted-handoff/hinted_handoff.py leaves on the preferred replicas.
use ddia_implementations.Prelude.{
  ℕ, zero, suc, ◌+◌, String, Bool, true, List, [], ◌∷◌, Option, some, ◌≡◌, arith, ap, sym, ◌∙◌,
  subst, inl, inr, Option-cases, Bool-cases, string_key, get_elem?, get_or, ◌++◌, not, ◌&&◌, ltb,
  length,
}
use ddia_implementations.Dict
use ddia_implementations.Dict.{Dict, get-put}
use ddia_implementations.Handoff.Node
use ddia_implementations.Handoff.Node.{Hint}
use ddia_implementations.Handoff.Store.{
  HintedHandoffStore, WriteResult, Written, write_one, write_preferred, place_hint, place_hints,
  finish_put, get_preferred_nodes, put, non_preferred,
}
use ddia_implementations.Handoff.Delivered.{HasVersion, put-HasVersion_own}

module _ {V : Type 0} where
  -- the node `nid` has the key at this version or a later one
  abbrev pub Stored : Dict String (Node.Node V) → String → String → ℕ → Type 0
  Stored nodes nid key version =
      (n : Node.Node V) × (Dict.get nodes nid ≡ some n) × HasVersion n key version

  -- the node `nid` is up
  abbrev pub IsUp : Dict String (Node.Node V) → String → Type 0
  IsUp nodes nid = (n : Node.Node V) × (Dict.get nodes nid ≡ some n) × (n.available ≡ true)

  put_available :
      (n : Node.Node V) (key : String) (value : V) (version : ℕ)
      → (Node.put n key value version).available ≡ n.available
  unfolding Node.put
  put_available n key value version = ground arith

  write_one-Stored :
      (w w' : Written V) (key : String) (value : V) (version : ℕ) (nid p : String)
      → write_one w key value version nid ≡ some w'
      → Stored w.nodes p key version
      → Stored w'.nodes p key version
  unfolding write_one
  write_one-Stored w w' key value version nid p e (n, g, h) =
      elim (Option-cases (Dict.get w.nodes nid)) [
        | inl q ↦ absurd (ground arith)
        | inr (m, q) ↦ elim (Bool-cases m.available) [
          | inr b ↦ (n, ground arith, h)
          | inl b ↦
              let nodes : Dict.put w.nodes nid (Node.put m key value version) ≡ w'.nodes =
                ground arith in
              elim (string_key.dec nid p) [
                | yes z ↦
                    let mine : n ≡ m = ground arith in
                    (
                      Node.put m key value version,
                      ap (λ d. Dict.get d p) (sym nodes)
                          ∙ ground (arith, get-put w.nodes nid (Node.put m key value version) p),
                      put-HasVersion_own m key value version,
                    )
                | no z ↦ (
                  n,
                  ap (λ d. Dict.get d p) (sym nodes)
                      ∙ ground (arith, get-put w.nodes nid (Node.put m key value version) p),
                  h,
                )
              ]
        ]
      ]

  write_one-IsUp :
      (w w' : Written V) (key : String) (value : V) (version : ℕ) (nid p : String)
      → write_one w key value version nid ≡ some w'
      → IsUp w.nodes p
      → IsUp w'.nodes p
  unfolding write_one
  write_one-IsUp w w' key value version nid p e (n, g, u) =
      elim (Option-cases (Dict.get w.nodes nid)) [
        | inl q ↦ absurd (ground arith)
        | inr (m, q) ↦ elim (Bool-cases m.available) [
          | inr b ↦ (n, ground arith, u)
          | inl b ↦
              let nodes : Dict.put w.nodes nid (Node.put m key value version) ≡ w'.nodes =
                ground arith in
              elim (string_key.dec nid p) [
                | yes z ↦ (
                  Node.put m key value version,
                  ap (λ d. Dict.get d p) (sym nodes)
                      ∙ ground (arith, get-put w.nodes nid (Node.put m key value version) p),
                  put_available m key value version ∙ b,
                )
                | no z ↦ (
                  n,
                  ap (λ d. Dict.get d p) (sym nodes)
                      ∙ ground (arith, get-put w.nodes nid (Node.put m key value version) p),
                  u,
                )
              ]
        ]
      ]

  write_one-new :
      (w w' : Written V) (key : String) (value : V) (version : ℕ) (nid : String)
      → write_one w key value version nid ≡ some w'
      → IsUp w.nodes nid
      → Stored w'.nodes nid key version
  unfolding write_one
  write_one-new w w' key value version nid e (n, g, u) =
      let nodes : Dict.put w.nodes nid (Node.put n key value version) ≡ w'.nodes = ground arith in
      (
        Node.put n key value version,
        ap (λ d. Dict.get d nid) (sym nodes)
            ∙ ground (arith, get-put w.nodes nid (Node.put n key value version) nid),
        put-HasVersion_own n key value version,
      )

  write_preferred-Stored :
      (w w' : Written V) (key : String) (value : V) (version : ℕ) (ids : List String) (p : String)
      → write_preferred w key value version ids ≡ some w'
      → Stored w.nodes p key version
      → Stored w'.nodes p key version
  unfolding write_preferred
  write_preferred-Stored w w' key value version [] p e h =
      (let same : w ≡ w' = ground arith in
        subst (λ (x : Written V). Stored x.nodes p key version) same h)
  write_preferred-Stored w w' key value version (nid ∷ ids) p e h =
      elim (Option-cases (write_one w key value version nid)) [
        | inl q ↦ absurd (ground arith)
        | inr (m, q) ↦
            write_preferred-Stored m w' key value version ids p (ground arith)
              (write_one-Stored w m key value version nid p q h)
      ]

  write_preferred-new :
      (w w' : Written V) (key : String) (value : V) (version : ℕ) (ids : List String) (i : ℕ)
      (p : String)
      → write_preferred w key value version ids ≡ some w'
      → get_elem? ids i ≡ some p
      → IsUp w.nodes p
      → Stored w'.nodes p key version
  unfolding write_preferred
  write_preferred-new w w' key value version [] i p e g u = cc
  write_preferred-new w w' key value version (nid ∷ ids) zero p e g u =
      elim (Option-cases (write_one w key value version nid)) [
        | inl q ↦ absurd (ground arith)
        | inr (m, q) ↦
            let mine : p ≡ nid = ground arith in
            write_preferred-Stored m w' key value version ids p (ground arith) (
              subst (λ k. Stored m.nodes k key version) (sym mine)
                (write_one-new w m key value version nid q (subst (IsUp w.nodes) mine u)))
      ]
  write_preferred-new w w' key value version (nid ∷ ids) (suc i) p e g u =
      elim (Option-cases (write_one w key value version nid)) [
        | inl q ↦ absurd (ground arith)
        | inr (m, q) ↦
            write_preferred-new m w' key value version ids i p (ground arith) g
              (write_one-IsUp w m key value version nid p q u)
      ]

  place_hint-Stored :
      (nodes nodes' : Dict String (Node.Node V)) (hint : Hint V) (ids : List String)
      (at : Option String) (p key : String) (version : ℕ)
      → place_hint nodes hint ids ≡ some (nodes', at)
      → Stored nodes p key version
      → Stored nodes' p key version
  unfolding place_hint Node.store_hint Node.get
  place_hint-Stored nodes nodes' hint [] at p key version e h =
      subst (λ d. Stored d p key version) (ground arith) h
  place_hint-Stored nodes nodes' hint (nid ∷ ids) at p key version e (n, g, h) =
      elim (Option-cases (Dict.get nodes nid)) [
        | inl q ↦ absurd (ground arith)
        | inr (m, q) ↦ elim (Bool-cases m.available) [
          | inr b ↦
              place_hint-Stored nodes nodes' hint ids at p key version (ground arith) (n, g, h)
          | inl b ↦
              let m' : Node.Node V = record m { hints = m.hints ++ hint ∷ [] } in
              let same : Dict.put nodes nid m' ≡ nodes' = ground arith in
              elim (string_key.dec nid p) [
                | yes z ↦
                    let mine : n ≡ m = ground arith in
                    (
                      m',
                      ap (λ d. Dict.get d p) (sym same) ∙ ground (arith, get-put nodes nid m' p),
                      subst (λ (u : Node.Node V). HasVersion u key version) mine h,
                    )
                | no z ↦ (
                  n,
                  ap (λ d. Dict.get d p) (sym same) ∙ ground (arith, get-put nodes nid m' p),
                  h,
                )
              ]
        ]
      ]

  place_hints-Stored :
      (nodes nodes' : Dict String (Node.Node V)) (hint_for : String → Hint V)
      (targets ids : List String) (placed : List (String × String)) (p key : String) (version : ℕ)
      → place_hints nodes hint_for targets ids ≡ some (nodes', placed)
      → Stored nodes p key version
      → Stored nodes' p key version
  unfolding place_hints
  place_hints-Stored nodes nodes' hint_for [] ids placed p key version e h =
      subst (λ d. Stored d p key version) (ground arith) h
  place_hints-Stored nodes nodes' hint_for (t ∷ targets) ids placed p key version e h =
      elim (Option-cases (place_hint nodes (hint_for t) ids)) [
        | inl q ↦ absurd (ground arith)
        | inr (first, q) ↦ elim (Option-cases (place_hints first.0 hint_for targets ids)) [
          | inl y ↦ absurd (ground arith)
          | inr (rest, y) ↦
              let same : rest.0 ≡ nodes' = ground arith in
              subst (λ d. Stored d p key version) same
                (place_hints-Stored first.0 rest.0 hint_for targets ids rest.1 p key version y
                  (place_hint-Stored nodes first.0 (hint_for t) ids first.1 p key version q h))
        ]
      ]

  finish_put-Stored :
      (s s' : HintedHandoffStore V) (w : Written V) (preferred : List String)
      (hint_for : String → Hint V) (v : ℕ) (r : WriteResult) (p key : String) (version : ℕ)
      → finish_put s w preferred hint_for v ≡ some (s', r)
      → Stored w.nodes p key version
      → Stored s'.nodes p key version × (r.version ≡ v)
  unfolding finish_put
  finish_put-Stored s s' w preferred hint_for v r p key version e h =
      let lost : Bool = not s.sloppy_quorum && ltb (length w.replicas_written) s.write_quorum in
      let ids : List String = non_preferred s.sorted_node_ids preferred in
      elim (Bool-cases lost) [
        | inl b ↦
            let same : w.nodes ≡ s'.nodes = ground arith in
            (subst (λ d. Stored d p key version) same h, ground arith)
        | inr b ↦ elim (Option-cases (place_hints w.nodes hint_for w.unavailable_preferred ids)) [
          | inl q ↦ absurd (ground arith)
          | inr (hinted, q) ↦
              let same : hinted.0 ≡ s'.nodes = ground arith in
              (
                subst (λ d. Stored d p key version) same
                    (place_hints-Stored w.nodes hinted.0 hint_for w.unavailable_preferred ids
                      hinted.1 p key version q h),
                ground arith,
              )
        ]
      ]

module _ {V : Type 0} (hash : String → ℕ) where
  -- Every preferred replica that is up gets a write: after a `put` that returns, with its quorum or
  -- without, each preferred node that was up has the key at the version of the answer or a later
  -- one.
  pub put-Stored :
      (s s' : HintedHandoffStore V) (key : String) (value : V) (t i : ℕ) (r : WriteResult)
      (preferred : List String) (p : String)
      → get_preferred_nodes hash s key ≡ some preferred
      → get_elem? preferred i ≡ some p
      → IsUp s.nodes p
      → put hash s key value t ≡ some (s', r)
      → Stored s'.nodes p key r.version
  unfolding put
  put-Stored s s' key value t i r preferred p f g u e =
      let version : ℕ = get_or (Dict.get s.versions key) 0 + 1 in
      let begin : Written V = record {
        nodes = s.nodes;
        replicas_written = [];
        unavailable_preferred = [];
      } in
      let hint_for : String → Hint V = λ target. record {
        target_node_id = target;
        key = key;
        value = value;
        version = version;
        created_at = t;
        ttl = s.hint_ttl;
      } in
      elim (Option-cases (write_preferred begin key value version preferred)) [
        | inl q ↦ absurd (ground arith)
        | inr (w, q) ↦
            let counted : HintedHandoffStore V = record s {
              versions = Dict.put s.versions key version;
            } in
            let ended : finish_put counted w preferred hint_for version ≡ some (s', r) =
              ground arith in
            let done =
              finish_put-Stored counted s' w preferred hint_for version r p key version ended
                (write_preferred-new begin w key value version preferred i p q g u) in
            subst (Stored s'.nodes p key) (sym done.1) done.0
      ]
