-- ===== src/Replication/Feeding.antt =====
-- What a write of leader-follower-replication/replication.py does to each follower.
use ddia_implementations.Prelude.{
  ℕ, String, string_key, [], ◌∷◌, ◌≡◌, some, none, ◌⊎◌, inl, inr, arith, if◌then◌else◌,
  Option-cases, ◌≢◌, ◌∙◌, is_none, Option, ap,
}
use ddia_implementations.Dict
use ddia_implementations.Dict.{Dict, get-put, get-remove}
use ddia_implementations.Replication.Leader
use ddia_implementations.Replication.Follower.{
  ReplicationLogEntry, FollowerNode, apply_from, apply_entry, apply_entries,
}
use ddia_implementations.Replication.Leader.{
  System, Progress, LeaderNode, Mode, propagate_to, propagate_all, best_async, better_async,
  promote_async_to_semi_sync, semi_sync,
}

module _ {V : Type 0} where
  apply_entry-twice :
      (n : FollowerNode V) (e : ReplicationLogEntry V)
      → apply_entry (apply_entry n e) e ≡ apply_entry n e
  unfolding apply_entry
  apply_entry-twice n e = ground arith

  apply_entry-online :
      (n : FollowerNode V) (e : ReplicationLogEntry V) → (apply_entry n e).online ≡ n.online
  unfolding apply_entry
  apply_entry-online n e = ground arith

  propagate_to-nodes :
      (p : Progress V) (e : ReplicationLogEntry V) (j : String) (m : Mode) (n : FollowerNode V)
      → Dict.get p.nodes j ≡ some n
      → (propagate_to p e j m).nodes
        ≡ (if n.online then Dict.put p.nodes j (apply_entry n e) else p.nodes)
  unfolding propagate_to apply_entries apply_from
  propagate_to-nodes p e j Leader.sync n h = ground arith
  propagate_to-nodes p e j Leader.async n h = ground arith
  propagate_to-nodes p e j Leader.semi_sync n h = ground arith

  -- what a round makes of a registered follower
  abbrev pub fed : FollowerNode V → ReplicationLogEntry V → FollowerNode V
  fed n e = if n.online then apply_entry n e else n

  get-propagate_to_same :
      (p : Progress V) (e : ReplicationLogEntry V) (j : String) (m : Mode) (id : String)
      (n : FollowerNode V)
      → j ≡ id
      → Dict.get p.nodes id ≡ some n
      → Dict.get (propagate_to p e j m).nodes id ≡ some (fed n e)
  get-propagate_to_same p e j m id n q h =
      ground (arith, propagate_to-nodes p e j m n, get-put p.nodes j (apply_entry n e) id)

  propagate_to-absent :
      (p : Progress V) (e : ReplicationLogEntry V) (j : String) (m : Mode)
      → Dict.get p.nodes j ≡ none
      → propagate_to p e j m ≡ p
  unfolding propagate_to
  propagate_to-absent p e j m h = ground arith

  get-propagate_to_other :
      (p : Progress V) (e : ReplicationLogEntry V) (j : String) (m : Mode) (id : String)
      → j ≢ id
      → Dict.get (propagate_to p e j m).nodes id ≡ Dict.get p.nodes id
  get-propagate_to_other p e j m id ne = elim (Option-cases (Dict.get p.nodes j)) [
    | inl h ↦ ground (arith, propagate_to-absent p e j m h)
    | inr (n, h) ↦
        ground (arith, propagate_to-nodes p e j m n h, get-put p.nodes j (apply_entry n e) id)
  ]

  fed-twice : (n : FollowerNode V) (e : ReplicationLogEntry V) → fed (fed n e) e ≡ fed n e
  fed-twice n e = ground (arith, apply_entry-twice n e, apply_entry-online n e)

  -- A node after the loop, for a table of registered followers.
  get-propagate_all-fed :
      (p : Progress V) (e : ReplicationLogEntry V) (fs : Dict String Mode) (id : String)
      (n : FollowerNode V)
      → Dict.get p.nodes id ≡ some (fed n e)
      → Dict.get (propagate_all p e fs).nodes id ≡ some (fed n e)
  unfolding propagate_all
  get-propagate_all-fed p e [] id n h = h
  get-propagate_all-fed p e ((j, m) ∷ fs) id n h = elim (string_key.dec j id) [
    | yes q ↦
        get-propagate_all-fed (propagate_to p e j m) e fs id n
          (get-propagate_to_same p e j m id (fed n e) q h ∙ ap some (fed-twice n e))
    | no q ↦
        get-propagate_all-fed (propagate_to p e j m) e fs id n
          (get-propagate_to_other p e j m id q ∙ h)
  ]

  pub get-propagate_all :
      (p : Progress V) (e : ReplicationLogEntry V) (fs : Dict String Mode) (id : String)
      (n : FollowerNode V)
      → Dict.get p.nodes id ≡ some n
      → Dict.get (propagate_all p e fs).nodes id
        ≡ some (if is_none (Dict.get fs id) then n else fed n e)
  unfolding propagate_all Dict.get
  get-propagate_all p e [] id n h = h
  get-propagate_all p e ((j, m) ∷ fs) id n h = elim (string_key.dec j id) [
    | yes q ↦
        get-propagate_all-fed (propagate_to p e j m) e fs id n
          (get-propagate_to_same p e j m id n q h)
        ∙ ground arith
    | no q ↦
        get-propagate_all (propagate_to p e j m) e fs id n (get-propagate_to_other p e j m id q ∙ h)
        ∙ ground arith
  ]

  pub get-propagate_all-none :
      (p : Progress V) (e : ReplicationLogEntry V) (fs : Dict String Mode) (id : String)
      → Dict.get p.nodes id ≡ none
      → Dict.get (propagate_all p e fs).nodes id ≡ none
  unfolding propagate_all
  get-propagate_all-none p e [] id h = h
  get-propagate_all-none p e ((j, m) ∷ fs) id h = elim (string_key.dec j id) [
    | yes q ↦
        get-propagate_all-none (propagate_to p e j m) e fs id
          (ground (arith, propagate_to-absent p e j m))
    | no q ↦
        get-propagate_all-none (propagate_to p e j m) e fs id
          (get-propagate_to_other p e j m id q ∙ h)
  ]

  better_async-from :
      (nodes : Dict String (FollowerNode V)) (best : Option (String × ℕ)) (j : String) (m : Mode)
      (b : String × ℕ)
      → better_async nodes best j m ≡ some b
      → (best ≡ some b) ⊎ (j ≡ b.0)
  unfolding better_async
  better_async-from nodes best j m b h = elim (Option-cases (Dict.get nodes j)) [
    | inl q ↦ inl (ground arith)
    | inr (n, q) ↦ elim (string_key.dec j b.0) [ yes e ↦ inr e | no e ↦ inl (ground arith) ]
  ]

  best_async-registered :
      (nodes : Dict String (FollowerNode V)) (best : Option (String × ℕ)) (fs : Dict String Mode)
      (b : String × ℕ)
      → best_async nodes best fs ≡ some b
      → (best ≡ some b) ⊎ (Dict.get fs b.0 ≢ none)
  unfolding best_async Dict.get
  best_async-registered nodes best [] b h = inl h
  best_async-registered nodes best ((j, m) ∷ fs) b h =
      elim (best_async-registered nodes (better_async nodes best j m) fs b h) [
        | inl q ↦ elim (better_async-from nodes best j m b q) [
          | inl e ↦ inl e
          | inr e ↦ inr (λ g. ground arith)
        ]
        | inr q ↦ inr (λ g. ground arith)
      ]

  -- a promotion registers nobody
  pub promote-registered :
      (nodes : Dict String (FollowerNode V)) (fs : Dict String Mode) (id : String)
      → Dict.get fs id ≡ none
      → Dict.get (promote_async_to_semi_sync nodes fs) id ≡ none
  unfolding promote_async_to_semi_sync
  promote-registered nodes fs id h = elim (Option-cases (best_async nodes none fs)) [
    | inl q ↦ ground arith
    | inr (b, q) ↦ elim (best_async-registered nodes none fs b q) [
      | inl e ↦ ground arith
      | inr e ↦ ground (arith, get-put fs b.0 semi_sync id)
    ]
  ]
