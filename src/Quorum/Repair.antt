-- ===== src/Quorum/Repair.antt =====
-- What `get` and a failed `put` of leaderless-replication/dynamo.py leave on the replicas.
use ddia_implementations.Prelude.{
  ℕ, ◌+◌, String, List, string_key, Key, none, some, [], ◌∷◌, refl, arith, Option-cases, List-cases,
  ◌≡◌, ◌≤◌, true, get_or, Option, if◌then◌else◌, inl, subst, ◌∙◌, ◌&&◌, inr, ap, sym,
}
use ddia_implementations.Dict
use ddia_implementations.Dict.{Dict, get-put}
use ddia_implementations.Quorum.Replica.{
  ReplicaNode, VersionedValue, write, write_all, repair_all, read, available_count, responses,
  max_version, at_version, accepts, is_stale,
}
use ddia_implementations.Quorum.Cluster.{set_node_available, DynamoCluster, ReadResult, put, get}
use ddia_implementations.Quorum.Overlap.{get-version, at_version-none}

module _ {V : Type 0} where
  -- the version of the key on a replica, if there is one
  abbrev pub version_at : ReplicaNode V → String → Option ℕ
  version_at n key = elim (Dict.get n.store key) [ none ↦ none | some v ↦ some v.version ]

  responses-bound :
      (d : Dict String (ReplicaNode V)) (key id : String) (n : ReplicaNode V) (v : VersionedValue V)
      → Dict.get d id ≡ some n
      → n.is_available ≡ true
      → Dict.get n.store key ≡ some v
      → v.version ≤ max_version (responses d key)
  unfolding responses max_version read Dict.get
  responses-bound [] key id n v g a s = ground arith
  responses-bound ((j, m) ∷ d) key id n v g a s = elim (string_key.dec j id) [
    | yes e ↦ ground (arith)
    | no e ↦ ground (arith, responses-bound d key id n v)
  ]

  -- what the loop makes of one replica
  abbrev repaired : ReplicaNode V → String → V → ℕ → ReplicaNode V
  repaired o key x m =
      if o.is_available && is_stale (Dict.get o.store key) m then (write o key x m).0 else o

  repaired-version :
      (o : ReplicaNode V) (key : String) (x : V) (m : ℕ)
      → ((v : VersionedValue V)
          → o.is_available ≡ true
          → Dict.get o.store key ≡ some v
          → v.version ≤ m)
      → (repaired o key x m).is_available ≡ true
      → version_at (repaired o key x m) key ≡ some m
  unfolding write
  repaired-version o key x m h a = elim (Option-cases (Dict.get o.store key)) [
    | inl e ↦
        ground
          (arith, get-put o.store key (record { value = x; version = m; node_id = o.node_id }) key)
    | inr (v, e) ↦ ground (
      arith,
      h v,
      get-put o.store key (record { value = x; version = m; node_id = o.node_id }) key,
    )
  ]

  get-repair_all :
      (d : Dict String (ReplicaNode V)) (key : String) (x : V) (m : ℕ) (id : String)
      (n : ReplicaNode V)
      → Dict.get (repair_all d key x m).0 id ≡ some n
      → (o : ReplicaNode V) × ((Dict.get d id ≡ some o) × (repaired o key x m ≡ n))
  unfolding repair_all Dict.get
  get-repair_all [] key x m id n g = ground arith
  get-repair_all ((j, o) ∷ d) key x m id n g = elim (string_key.dec j id) [
    | yes e ↦ (o, (ground arith, ground arith))
    | no e ↦
        let (o', (g', q)) = get-repair_all d key x m id n (ground arith) in (o', (ground arith, q))
  ]

  -- a repaired replica has the version of the repair or had a newer one
  repair_all-version :
      (d : Dict String (ReplicaNode V)) (key : String) (x : V) (m : ℕ) (id : String)
      (n : ReplicaNode V)
      → ((v : VersionedValue V) (o : ReplicaNode V)
          → Dict.get d id ≡ some o
          → o.is_available ≡ true
          → Dict.get o.store key ≡ some v
          → v.version ≤ m)
      → Dict.get (repair_all d key x m).0 id ≡ some n
      → n.is_available ≡ true
      → version_at n key ≡ some m
  repair_all-version d key x m id n h g a =
      let (o, (go, q)) = get-repair_all d key x m id n g in
      subst (λ n'. version_at n' key ≡ some m) q
        (repaired-version o key x m (λ v av s. h v o go av s)
          (ap (λ (n' : ReplicaNode V). n'.is_available) q ∙ a))

  get-write_all :
      (d : Dict String (ReplicaNode V)) (key : String) (x : V) (m : ℕ) (id : String)
      (n : ReplicaNode V)
      → Dict.get d id ≡ some n
      → n.is_available ≡ true
      → Dict.get (write_all d key x m).0 id ≡ some (write n key x m).0
  unfolding write_all Dict.get
  get-write_all [] key x m id n g a = ground arith
  get-write_all ((j, o) ∷ d) key x m id n g a = ground (arith, get-write_all d key x m id n)

  write-accepted :
      (n : ReplicaNode V) (key : String) (x : V) (m : ℕ)
      → n.is_available ≡ true
      → accepts (Dict.get n.store key) m ≡ true
      → Dict.get (write n key x m).0.store key
        ≡ some (record { value = x; version = m; node_id = n.node_id })
  unfolding write
  write-accepted n key x m a h =
      ground
        (arith, get-put n.store key (record { value = x; version = m; node_id = n.node_id }) key)

  put-failed_nodes :
      (c : DynamoCluster V) (key : String) (x : V)
      → (put c key x).1 ≡ none
      → (id : String)
      → Dict.get (put c key x).0.nodes id
        ≡ Dict.get (write_all c.nodes key x (get_or (Dict.get c.version_counters key) 0 + 1)).0 id
  unfolding put
  put-failed_nodes c key x h id = ground arith

  put-failed_counter :
      (c : DynamoCluster V) (key : String) (x : V)
      → (put c key x).1 ≡ none
      → get_or (Dict.get (put c key x).0.version_counters key) 0
        ≡ get_or (Dict.get c.version_counters key) 0
  unfolding put
  put-failed_counter c key x h =
      let v : ℕ = get_or (Dict.get c.version_counters key) 0 in
      ground (arith, get-put (Dict.put c.version_counters key (v + 1)) key v key)

  put-some_version :
      (c : DynamoCluster V) (key : String) (x : V) (ver : ℕ)
      → (put c key x).1 ≡ some ver
      → ver ≡ get_or (Dict.get c.version_counters key) 0 + 1
  unfolding put
  put-some_version c key x ver h = ground arith

  put-failed_version :
      (c : DynamoCluster V) (key other : String) (x y : V) (ver : ℕ)
      → (put c key x).1 ≡ none
      → (put (set_node_available (put c key x).0 other true) key y).1 ≡ some ver
      → ver ≡ get_or (Dict.get c.version_counters key) 0 + 1
  unfolding set_node_available
  put-failed_version c key other x y ver h q =
      put-some_version (set_node_available (put c key x).0 other true) key y ver q
      ∙ ap (λ m. m + 1) (put-failed_counter c key x h)

  pub put-failed :
      (c : DynamoCluster V) (key id other : String) (x y : V) (n : ReplicaNode V) (ver : ℕ)
      → (put c key x).1 ≡ none
      → Dict.get c.nodes id ≡ some n
      → n.is_available ≡ true
      → accepts (Dict.get n.store key) ver ≡ true
      → (put (set_node_available (put c key x).0 other true) key y).1 ≡ some ver
      → (Dict.get (put c key x).0.nodes id ≡ some (write n key x ver).0)
        × (Dict.get (write n key x ver).0.store key
            ≡ some (record { value = x; version = ver; node_id = n.node_id }))
  put-failed c key id other x y n ver h g a fits q =
      let v = put-failed_version c key other x y ver h q in
      (
        put-failed_nodes c key x h id
            ∙ get-write_all c.nodes key x _ id n g a
            ∙ ap (λ m. some (write n key x m).0) (sym v),
        write-accepted n key x ver a fits,
      )

module _ {V : Type 0} ⦃e : Key V⦄ where
  get-nodes :
      (c : DynamoCluster V) (key : String) (w : VersionedValue V) (ws : List (VersionedValue V))
      (id : String) (n : ReplicaNode V)
      → c.r ≤ available_count c.nodes
      → at_version (max_version (responses c.nodes key)) (responses c.nodes key) ≡ w ∷ ws
      → Dict.get (get c key).0.nodes id ≡ some n
      → Dict.get (repair_all c.nodes key w.value (max_version (responses c.nodes key))).0 id
        ≡ some n
  unfolding get
  get-nodes c key w ws id n ra q g = ground arith

  -- Read repair: after a `get` that found a version, each replica that is available holds
  -- exactly the version that the read returned.
  pub get_repairs :
      (c : DynamoCluster V) (key id : String) (res : ReadResult V) (n : ReplicaNode V)
      → (get c key).1 ≡ some res
      → 1 ≤ res.version
      → Dict.get (get c key).0.nodes id ≡ some n
      → n.is_available ≡ true
      → version_at n key ≡ some res.version
  get_repairs c key id res n h p g a =
      let rs : List (VersionedValue V) = responses c.nodes key in
      let (ra, rv) = get-version c key res h in
      elim (List-cases (at_version (max_version rs) rs)) [
        | inl q ↦ absurd (empty_version q (ground arith))
        | inr (w, (ws, q)) ↦
            subst (λ m. version_at n key ≡ some m) (sym rv)
              (repair_all-version c.nodes key w.value (max_version rs) id n
                (λ v o go av s. responses-bound c.nodes key id o v go av s)
                (get-nodes c key w ws id n ra q g) a)
      ]
    where
      empty_version :
          at_version (max_version (responses c.nodes key)) (responses c.nodes key) ≡ []
          → 1 ≤ max_version (responses c.nodes key)
          → ⊥
      empty_version q l = ground (
        arith,
        at_version-none (responses c.nodes key) (max_version (responses c.nodes key)) q refl,
      )
