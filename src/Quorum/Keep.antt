-- ===== src/Quorum/Keep.antt =====
-- How many replicas hold a version at least as new as a given one, and that no call lowers that.
use ddia_implementations.Prelude.{
  [], ◌∷◌, none, some, refl, ℕ, ◌+◌, String, Bool, string_key, Option, length, arith, ◌∙◌, ◌≡◌,
  false, ◌≤◌, true, Option-cases, leb, inl, inr, if◌then◌else◌, subst,
}
use ddia_implementations.Dict
use ddia_implementations.Dict.{Dict, get-put}
use ddia_implementations.Quorum.Replica.{
  ReplicaNode, VersionedValue, write, write_all, repair_all, update_node,
}

module _ {V : Type 0} where
  -- Does the replica hold version `ver` of the key, or a newer one?
  abbrev pub at_least : Option (VersionedValue V) → ℕ → Bool
  at_least none ver = false
  at_least (some v) ver = leb ver v.version

  unfoldable pub holders : Dict String (ReplicaNode V) → String → ℕ → ℕ
  holders [] key ver = 0
  holders ((id, n) ∷ d) key ver =
      let rest = holders d key ver in if at_least (Dict.get n.store key) ver then rest + 1 else rest

  -- the table `d'` has as many replicas as `d`, and no fewer holders
  pub record Keeps (key : String) (ver : ℕ) (d d' : Dict String (ReplicaNode V)) : Type 0 where
    pub as_many : length d' ≡ length d
    pub held : holders d key ver ≤ holders d' key ver

  pub Keeps-refl : (key : String) (ver : ℕ) (d : Dict String (ReplicaNode V)) → Keeps key ver d d
  Keeps-refl key ver d = record { as_many = refl; held = ground arith }

  pub Keeps-trans :
      {key : String} {ver : ℕ} {a b c : Dict String (ReplicaNode V)}
      → Keeps key ver a b
      → Keeps key ver b c
      → Keeps key ver a c
  Keeps-trans h g = record {
    as_many = g.as_many ∙ h.as_many;
    held = ground (arith, h.held, g.held);
  }

  -- a write keeps what is newer
  pub at_least-write :
      (n : ReplicaNode V) (k : String) (x : V) (v : ℕ) (key : String) (ver : ℕ)
      → at_least (Dict.get n.store key) ver ≡ true
      → at_least (Dict.get (write n k x v).0.store key) ver ≡ true
  unfolding write
  at_least-write n k x v key ver h =
      ground (arith, get-put n.store k (record { value = x; version = v; node_id = n.node_id }) key)

  pub put-Keeps :
      (key : String) (ver : ℕ) (d : Dict String (ReplicaNode V)) (id : String)
      (n n' : ReplicaNode V)
      → Dict.get d id ≡ some n
      → (at_least (Dict.get n.store key) ver ≡ true → at_least (Dict.get n'.store key) ver ≡ true)
      → Keeps key ver d (Dict.put d id n')
  unfolding Dict.get Dict.put holders
  put-Keeps key ver [] id n n' g h = ground arith
  put-Keeps key ver ((j, m) ∷ d) id n n' g h = elim (string_key.dec j id) [
    | yes e ↦ record { as_many = ground arith; held = ground arith }
    | no e ↦
        let ih = put-Keeps key ver d id n n' (ground arith) h in
        record { as_many = ground (arith, ih.as_many); held = ground (arith, ih.held) }
  ]

  pub write_all-Keeps :
      (key : String) (ver : ℕ) (d : Dict String (ReplicaNode V)) (k : String) (x : V) (v : ℕ)
      → Keeps key ver d (write_all d k x v).0
  unfolding write_all holders
  write_all-Keeps key ver [] k x v = Keeps-refl key ver []
  write_all-Keeps key ver ((id, n) ∷ d) k x v =
      let ih = write_all-Keeps key ver d k x v in
      record {
        as_many = ground (arith, ih.as_many);
        held = ground (arith, ih.held, at_least-write n k x v key ver);
      }

  pub repair_all-Keeps :
      (key : String) (ver : ℕ) (d : Dict String (ReplicaNode V)) (k : String) (x : V) (v : ℕ)
      → Keeps key ver d (repair_all d k x v).0
  unfolding repair_all holders
  repair_all-Keeps key ver [] k x v = Keeps-refl key ver []
  repair_all-Keeps key ver ((id, n) ∷ d) k x v =
      let ih = repair_all-Keeps key ver d k x v in
      record {
        as_many = ground (arith, ih.as_many);
        held = ground (arith, ih.held, at_least-write n k x v key ver);
      }

  pub update_node-Keeps :
      (key : String) (ver : ℕ) (d : Dict String (ReplicaNode V)) (id : String)
      (f : ReplicaNode V → ReplicaNode V)
      → ((n : ReplicaNode V) → (f n).store ≡ n.store)
      → Keeps key ver d (update_node d id f)
  unfolding update_node
  update_node-Keeps key ver d id f h = elim (Option-cases (Dict.get d id)) [
    | inl e ↦ subst (λ d'. Keeps key ver d d') (ground arith) (Keeps-refl key ver d)
    | inr (n, e) ↦
        subst (λ d'. Keeps key ver d d') (ground arith)
          (put-Keeps key ver d id n (f n) e (λ g. ground (arith, h n)))
  ]
