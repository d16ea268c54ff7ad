-- ===== src/Quorum/Overlap.antt =====
-- Quorums of leaderless-replication/dynamo.py overlap.
use ddia_implementations.Prelude.{
  ℕ, ◌+◌, String, List, string_key, Key, some, [], ◌∷◌, refl, arith, Option-cases, Bool-cases, ◌≡◌,
  ◌≤◌, ◌<◌, length, get_or, List-cases, ltb, inl, inr,
}
use ddia_implementations.Dict
use ddia_implementations.Dict.{Dict, get-put}
use ddia_implementations.Quorum.Replica.{
  read, ReplicaNode, VersionedValue, write, write_all, available_count, responses, max_version,
  at_version,
}
use ddia_implementations.Quorum.Cluster.{
  DynamoCluster, ReadResult, put, get, get_from, first_available, unavailable_ids,
}
use ddia_implementations.Quorum.Hints.{Call, serve_all}
use ddia_implementations.Quorum.Keep.{holders}
use ddia_implementations.Quorum.Steps.{put_nodes-Keeps, serve_all-Keeps, add_hints-Keeps}

module _ {V : Type 0} where
  -- every replica that acknowledged a write holds its version
  write_all-holders :
      (d : Dict String (ReplicaNode V)) (key : String) (x : V) (v : ℕ)
      → (write_all d key x v).1 ≤ holders (write_all d key x v).0 key v
  unfolding write_all holders write
  write_all-holders [] key x v = ground arith
  write_all-holders ((id, n) ∷ d) key x v = ground (
    arith,
    write_all-holders d key x v,
    get-put n.store key (record { value = x; version = v; node_id = n.node_id }) key,
  )

  -- what a `put` that returns leaves
  put-holders :
      (c : DynamoCluster V) (key : String) (x : V) (ver : ℕ)
      → (put c key x).1 ≡ some ver
      → c.w ≤ holders (put c key x).0.nodes key ver
  unfolding put
  put-holders c key x ver h =
      let v : ℕ = get_or (Dict.get c.version_counters key) 0 + 1 in
      let d : Dict String (ReplicaNode V) = (write_all c.nodes key x v).0 in
      let hinted = add_hints-Keeps key v d (first_available d) key x v (unavailable_ids d) in
      ground (arith, write_all-holders c.nodes key x v, hinted.held)

  put-r : (c : DynamoCluster V) (key : String) (x : V) → (put c key x).0.r ≡ c.r
  unfolding put
  put-r c key x = ground arith

  -- a replica is not both down and in the answers
  responses-holders :
      (d : Dict String (ReplicaNode V)) (key : String) (ver : ℕ)
      → max_version (responses d key) < ver
      → holders d key ver + available_count d ≤ length d
  unfolding responses max_version holders available_count read
  responses-holders [] key ver h = ground arith
  responses-holders ((id, n) ∷ d) key ver h = elim (Option-cases (Dict.get n.store key)) [
    | inl e ↦ ground (arith, responses-holders d key ver)
    | inr (v, e) ↦ ground (arith, responses-holders d key ver)
  ]

  pub at_version-none :
      (vs : List (VersionedValue V)) (m : ℕ) → at_version m vs ≡ [] → max_version vs ≡ m → m ≡ 0
  unfolding at_version max_version
  at_version-none [] m h e = ground arith
  at_version-none (v ∷ vs) m h e = ground (arith, at_version-none vs m)

module _ {V : Type 0} ⦃e : Key V⦄ where
  pub get_from-version :
      (c : DynamoCluster V) (key : String) (vs : List (VersionedValue V)) (res : ReadResult V)
      → (get_from c key (max_version vs) (at_version (max_version vs) vs)).1 ≡ some res
      → res.version ≡ max_version vs
  get_from-version c key vs res h = elim (List-cases (at_version (max_version vs) vs)) [
    | inl q ↦ ground (arith, at_version-none vs (max_version vs) q refl)
    | inr (w, (ws, q)) ↦ ground arith
  ]

  pub get-version :
      (c : DynamoCluster V) (key : String) (res : ReadResult V)
      → (get c key).1 ≡ some res
      → (c.r ≤ available_count c.nodes) × (res.version ≡ max_version (responses c.nodes key))
  unfolding get
  get-version c key res h = elim (Bool-cases (ltb (available_count c.nodes) c.r)) [
    | inl q ↦ ground arith
    | inr q ↦ (ground arith, get_from-version c key (responses c.nodes key) res (ground arith))
  ]

  -- An acknowledged write is not lost: with overlapping quorums, w + r greater than the number
  -- of replicas, let `put` return the version `ver`. After any further calls (writes, reads with
  -- their repair, replicas that go down or come up, anti-entropy and hints), each `get` of the
  -- key that reaches its quorum returns `ver` or a newer version.
  pub get-put_version :
      (c : DynamoCluster V) (key : String) (x : V) (ver : ℕ) (calls : List (Call V))
      (res : ReadResult V)
      → length c.nodes < c.w + c.r
      → (put c key x).1 ≡ some ver
      → (get (serve_all (put c key x).0 calls) key).1 ≡ some res
      → ver ≤ res.version
  get-put_version c key x ver calls res lt h g =
      let after = serve_all (put c key x).0 calls in
      let (k, q) = serve_all-Keeps key ver (put c key x).0 calls in
      let (ra, rv) = get-version after key res g in
      ground (
        arith,
        put-holders c key x ver h,
        put-r c key x,
        k.held,
        k.as_many,
        (put_nodes-Keeps key ver c key x).as_many,
        responses-holders after.nodes key ver,
      )
