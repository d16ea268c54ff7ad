-- ===== src/Quorum/Steps.antt =====
-- No call of a cluster lowers the number of replicas that hold a version or a newer one.
use ddia_implementations.Prelude.{
  ℕ, ◌+◌, String, List, string_key, Key, none, some, [], ◌∷◌, refl, arith, Option-cases, Bool-cases,
  ◌≡◌, Option, inl, ◌∙◌, subst, inr, get_or, ltb,
}
use ddia_implementations.Dict
use ddia_implementations.Dict.{Dict}
use ddia_implementations.Quorum.Replica.{
  ReplicaNode, Hint, write, update_node, add_hint, repair_all, set_available, VersionedValue,
  max_version, write_all, available_count, responses, at_version,
}
use ddia_implementations.Quorum.Cluster.{
  DynamoCluster, put, get, add_hints, repair_keys, best_of, set_node_available, anti_entropy_repair,
  all_keys, get_from, first_available, unavailable_ids,
}
use ddia_implementations.Quorum.Hints.{
  Call, deliver_one, deliver_list, deliver_nodes, deliver_hints, serve, serve_all, put_call,
  get_call, available_call, pop_hints, repair_call, hints_call, node_ids,
}
use ddia_implementations.Quorum.Keep.{
  Keeps, Keeps-refl, Keeps-trans, at_least-write, put-Keeps, write_all-Keeps, repair_all-Keeps,
  update_node-Keeps,
}

module _ {V : Type 0} where
  pub add_hints-Keeps :
      (key : String) (ver : ℕ) (d : Dict String (ReplicaNode V)) (holder : Option String)
      (k : String) (x : V) (v : ℕ) (ids : List String)
      → Keeps key ver d (add_hints d holder k x v ids)
  unfolding add_hints
  add_hints-Keeps key ver d holder k x v [] = Keeps-refl key ver d
  add_hints-Keeps key ver d none k x v (i ∷ ids) = add_hints-Keeps key ver d none k x v ids
  add_hints-Keeps key ver d (some id) k x v (i ∷ ids) =
      let h : Hint V = record { key = k; value = x; version = v; target_node_id = i } in
      Keeps-trans (update_node-Keeps key ver d id (add_hint h) (λ n. refl))
        (add_hints-Keeps key ver (update_node d id (add_hint h)) (some id) k x v ids)

  repair_keys-Keeps :
      (key : String) (ver : ℕ) (d : Dict String (ReplicaNode V)) (ks : List String)
      → Keeps key ver d (repair_keys d ks).0
  unfolding repair_keys
  repair_keys-Keeps key ver d [] = Keeps-refl key ver d
  repair_keys-Keeps key ver d (k ∷ ks) = elim (Option-cases (best_of d k none)) [
    | inl e ↦ subst (λ d'. Keeps key ver d d') (ground arith) (repair_keys-Keeps key ver d ks)
    | inr (b, e) ↦
        subst (λ d'. Keeps key ver d d') (ground arith)
          (Keeps-trans (repair_all-Keeps key ver d k b.value b.version)
            (repair_keys-Keeps key ver (repair_all d k b.value b.version).0 ks))
  ]

  deliver_one-Keeps :
      (key : String) (ver : ℕ) (d : Dict String (ReplicaNode V)) (id : String) (t : ReplicaNode V)
      (h : Hint V)
      → Dict.get d h.target_node_id ≡ some t
      → Keeps key ver d (deliver_one d id t h).0
  unfolding deliver_one
  deliver_one-Keeps key ver d id t h g = elim (Bool-cases t.is_available) [
    | inl e ↦
        subst (λ d'. Keeps key ver d d') (ground arith)
          (put-Keeps key ver d h.target_node_id t (write t h.key h.value h.version).0 g
            (at_least-write t h.key h.value h.version key ver))
    | inr e ↦
        subst (λ d'. Keeps key ver d d') (ground arith)
          (update_node-Keeps key ver d id (add_hint h) (λ n. refl))
  ]

  deliver_list-Keeps :
      (key : String) (ver : ℕ) (d : Dict String (ReplicaNode V)) (id : String) (hs : List (Hint V))
      → Keeps key ver d (deliver_list d id hs).0
  unfolding deliver_list
  deliver_list-Keeps key ver d id [] = Keeps-refl key ver d
  deliver_list-Keeps key ver d id (h ∷ hs) = elim (Option-cases (Dict.get d h.target_node_id)) [
    | inl e ↦ subst (λ d'. Keeps key ver d d') (ground arith) (Keeps-refl key ver d)
    | inr (t, e) ↦
        subst (λ d'. Keeps key ver d d') (ground arith)
          (Keeps-trans (deliver_one-Keeps key ver d id t h e)
            (deliver_list-Keeps key ver (deliver_one d id t h).0 id hs))
  ]

  deliver_nodes-Keeps :
      (key : String) (ver : ℕ) (d : Dict String (ReplicaNode V)) (ids : List String)
      → Keeps key ver d (deliver_nodes d ids).0
  unfolding deliver_nodes
  deliver_nodes-Keeps key ver d [] = Keeps-refl key ver d
  deliver_nodes-Keeps key ver d (id ∷ ids) = elim (Option-cases (Dict.get d id)) [
    | inl e ↦ subst (λ d'. Keeps key ver d d') (ground arith) (deliver_nodes-Keeps key ver d ids)
    | inr (n, e) ↦
        let popped = put-Keeps key ver d id n (pop_hints n) e (λ g. g) in
        let listed =
          Keeps-trans popped
            (deliver_list-Keeps key ver (Dict.put d id (pop_hints n)) id n.hints) in
        elim (Option-cases (deliver_list (Dict.put d id (pop_hints n)) id n.hints).1) [
          | inl q ↦ subst (λ d'. Keeps key ver d d') (ground arith) listed
          | inr (m, q) ↦
              subst (λ d'. Keeps key ver d d') (ground arith)
                (Keeps-trans listed (
                  deliver_nodes-Keeps key ver
                    (deliver_list (Dict.put d id (pop_hints n)) id n.hints).0 ids))
        ]
  ]

  pub put_nodes-Keeps :
      (key : String) (ver : ℕ) (c : DynamoCluster V) (k : String) (x : V)
      → Keeps key ver c.nodes (put c k x).0.nodes
  unfolding put
  put_nodes-Keeps key ver c k x =
      let v : ℕ = get_or (Dict.get c.version_counters k) 0 + 1 in
      let wrote = write_all-Keeps key ver c.nodes k x v in
      let d : Dict String (ReplicaNode V) = (write_all c.nodes k x v).0 in
      elim (Bool-cases (ltb (write_all c.nodes k x v).1 c.w)) [
        | inl e ↦ subst (λ d'. Keeps key ver c.nodes d') (ground arith) wrote
        | inr e ↦ elim (Bool-cases c.sloppy_quorum) [
          | inl q ↦
              subst (λ d'. Keeps key ver c.nodes d') (ground arith)
                (Keeps-trans wrote
                  (add_hints-Keeps key ver d (first_available d) k x v (unavailable_ids d)))
          | inr q ↦ subst (λ d'. Keeps key ver c.nodes d') (ground arith) wrote
        ]
      ]

module _ {V : Type 0} ⦃e : Key V⦄ where
  get_from-Keeps :
      (key : String) (ver : ℕ) (c : DynamoCluster V) (k : String) (m : ℕ)
      (vs : List (VersionedValue V))
      → Keeps key ver c.nodes (get_from c k m vs).0.nodes
  get_from-Keeps key ver c k m [] = Keeps-refl key ver c.nodes
  get_from-Keeps key ver c k m (v ∷ vs) = repair_all-Keeps key ver c.nodes k v.value m

  get_from-r :
      (c : DynamoCluster V) (k : String) (m : ℕ) (vs : List (VersionedValue V))
      → (get_from c k m vs).0.r ≡ c.r
  get_from-r c k m [] = refl
  get_from-r c k m (v ∷ vs) = refl

  get-Keeps :
      (key : String) (ver : ℕ) (c : DynamoCluster V) (k : String)
      → Keeps key ver c.nodes (get c k).0.nodes
  unfolding get
  get-Keeps key ver c k = elim (Bool-cases (ltb (available_count c.nodes) c.r)) [
    | inl q ↦ subst (λ d'. Keeps key ver c.nodes d') (ground arith) (Keeps-refl key ver c.nodes)
    | inr q ↦
        subst (λ d'. Keeps key ver c.nodes d') (ground arith)
          (get_from-Keeps key ver c k (max_version (responses c.nodes k))
            (at_version (max_version (responses c.nodes k)) (responses c.nodes k)))
  ]

  -- every call keeps the replicas, the quorums, and the number of holders
  pub serve-Keeps :
      (key : String) (ver : ℕ) (c : DynamoCluster V) (call : Call V)
      → Keeps key ver c.nodes (serve c call).nodes
  unfolding serve set_node_available anti_entropy_repair deliver_hints
  serve-Keeps key ver c (put_call k x) = put_nodes-Keeps key ver c k x
  serve-Keeps key ver c (get_call k) = get-Keeps key ver c k
  serve-Keeps key ver c (available_call id a) =
      update_node-Keeps key ver c.nodes id (set_available a) (λ n. refl)
  serve-Keeps key ver c repair_call = repair_keys-Keeps key ver c.nodes (all_keys c.nodes)
  serve-Keeps key ver c hints_call = deliver_nodes-Keeps key ver c.nodes (node_ids c.nodes)

  serve-r : (c : DynamoCluster V) (call : Call V) → (serve c call).r ≡ c.r
  unfolding serve set_node_available anti_entropy_repair deliver_hints put get
  serve-r c (put_call k x) = ground arith
  serve-r c (get_call k) = ground (
    arith,
    get_from-r c k (max_version (responses c.nodes k))
        (at_version (max_version (responses c.nodes k)) (responses c.nodes k)),
  )
  serve-r c (available_call id a) = refl
  serve-r c repair_call = refl
  serve-r c hints_call = refl

  pub serve_all-Keeps :
      (key : String) (ver : ℕ) (c : DynamoCluster V) (calls : List (Call V))
      → Keeps key ver c.nodes (serve_all c calls).nodes × ((serve_all c calls).r ≡ c.r)
  unfolding serve_all
  serve_all-Keeps key ver c [] = (Keeps-refl key ver c.nodes, refl)
  serve_all-Keeps key ver c (call ∷ calls) =
      let (h, q) = serve_all-Keeps key ver (serve c call) calls in
      (Keeps-trans (serve-Keeps key ver c call) h, q ∙ serve-r c call)
