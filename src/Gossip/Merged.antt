-- ===== src/Gossip/Merged.antt =====
-- What the nodes of gossip-protocol/gossip_protocol.py know of each other after merging lists.
use ddia_implementations.Prelude.{
  ℕ, ◌-◌, ◌≤◌, String, true, [], ◌∷◌, Option, none, some, ◌≡◌, ◌≢◌, refl, arith, ap, sym, ◌∙◌,
  subst, inl, inr, Option-cases, Bool-cases, string_key, max, if◌then◌else◌, ◌==◌, ◌+◌,
}
use ddia_implementations.Dict
use ddia_implementations.Dict.{Dict, get-put, IsDistinct}
use ddia_implementations.Gossip.Node
use ddia_implementations.Gossip.Node.{
  Status, dead, alive, suspected, MemberEntry, Membership, GossipNode, receive_all, receive_one,
  receive_gossip, merge_entry, detect_one, detect_all, detect_failures, heartbeat,
}

-- what a node knows of another one, with what a list says
abbrev pub merged : Option MemberEntry → Option MemberEntry → ℕ → Option MemberEntry
merged local none t = local
merged (some local) (some remote) t = some (merge_entry local remote t)
merged none (some remote) t =
    if Node.is_dead remote.status then none else some (record remote { timestamp_last_updated = t })

pub get-receive_one :
    (m : Membership) (nid p : String) (remote : MemberEntry) (t : ℕ)
    → Dict.get (receive_one m nid remote t) p
      ≡ (if nid == p then merged (Dict.get m p) (some remote) t else Dict.get m p)
unfolding receive_one
get-receive_one m nid p remote t = elim (Option-cases (Dict.get m nid)) [
  | inl q ↦ ground (arith, get-put m nid (record remote { timestamp_last_updated = t }) p)
  | inr (local, q) ↦ ground (arith, get-put m nid (merge_entry local remote t) p)
]

get-receive_all :
    (m ml : Membership) (p : String) (t : ℕ)
    → IsDistinct ml
    → Dict.get (receive_all m ml t) p ≡ merged (Dict.get m p) (Dict.get ml p) t
unfolding receive_all Dict.get
get-receive_all m [] p t h = refl
get-receive_all m ((nid, remote) ∷ ml) p t h = ground (
  arith,
  get-receive_all (receive_one m nid remote t) ml p t h.1,
  get-receive_one m nid p remote t,
)

-- After `receive_gossip` a node knows of each member what its own entry and the received one make
-- together: a member that it did not know it takes over unless it is dead, with the current time; of
-- a member that both know it keeps the larger heartbeat counter, with the current time if that is
-- the received one; what the list does not name stays. The list names no member twice.
pub get-receive_gossip :
    (n : GossipNode) (ml : Membership) (p : String) (t : ℕ)
    → IsDistinct ml
    → Dict.get (receive_gossip n ml t).membership p
      ≡ merged (Dict.get n.membership p) (Dict.get ml p) t
unfolding receive_gossip
get-receive_gossip n ml p t h = get-receive_all n.membership ml p t h

merge_entry-max :
    (local remote : MemberEntry) (t : ℕ)
    → (merge_entry local remote t).heartbeat_counter
      ≡ max local.heartbeat_counter remote.heartbeat_counter
unfolding merge_entry
merge_entry-max local remote t = ground arith

merge_entry-dead :
    (local remote : MemberEntry) (t : ℕ)
    → local.status ≡ dead
    → (merge_entry local remote t).status ≡ dead
unfolding merge_entry
merge_entry-dead local remote t h = ground arith

-- a member that counts as dead
abbrev pub IsDead : GossipNode → String → Type 0
IsDead n p = (e : MemberEntry) × (Dict.get n.membership p ≡ some e) × (e.status ≡ dead)

receive_all-dead :
    (m ml : Membership) (p : String) (t : ℕ) (e : MemberEntry)
    → Dict.get m p ≡ some e
    → e.status ≡ dead
    → (e' : MemberEntry) × (Dict.get (receive_all m ml t) p ≡ some e') × (e'.status ≡ dead)
unfolding receive_all
receive_all-dead m [] p t e g d = (e, g, d)
receive_all-dead m ((nid, remote) ∷ ml) p t e g d = elim (string_key.dec nid p) [
  | yes q ↦
      receive_all-dead (receive_one m nid remote t) ml p t (merge_entry e remote t)
        (ground (arith, get-receive_one m nid p remote t)) (merge_entry-dead e remote t d)
  | no q ↦
      receive_all-dead (receive_one m nid remote t) ml p t e
        (ground (arith, get-receive_one m nid p remote t)) d
]

pub get-keep :
    (nid p : String) (o : Option MemberEntry) (m : Membership)
    → nid ≢ p
    → Dict.get (Node.keep nid o m) p ≡ Dict.get m p
unfolding Dict.get
get-keep nid p none m ne = refl
get-keep nid p (some e) m ne = ground arith

detect_one-dead :
    (n : GossipNode) (e : MemberEntry) (t : ℕ)
    → e.status ≡ dead
    → t - e.timestamp_last_updated ≤ n.t_cleanup
    → detect_one n e t ≡ (some e, none)
unfolding detect_one
detect_one-dead n e t d l = ground arith

detect_all-dead :
    (n : GossipNode) (m : Membership) (p : String) (t : ℕ) (e : MemberEntry)
    → Dict.get m p ≡ some e
    → e.status ≡ dead
    → t - e.timestamp_last_updated ≤ n.t_cleanup
    → Dict.get (detect_all n m t).0 p ≡ some e
unfolding detect_all Dict.get
detect_all-dead n [] p t e g d l = cc
detect_all-dead n ((nid, info) ∷ m) p t e g d l = elim (string_key.dec nid p) [
  | yes q ↦
      let same : info ≡ e = ground arith in
      let kept : detect_one n info t ≡ (some info, none) =
        subst (λ x. detect_one n x t ≡ (some x, none)) (sym same) (detect_one-dead n e t d l) in
      ground (arith, kept)
  | no q ↦
      let rest = detect_all-dead n m p t e (ground arith) d l in
      ground (arith, rest, get-keep nid p (detect_one n info t).0 (detect_all n m t).0 q)
]

-- A node `n'` comes from `n` by gossip, heartbeats of its own and failure detection, which runs
-- before the entry of the member `p` is due for removal.
pub data Steps (p : String) : GossipNode → GossipNode → Type 0 where
  none_done : {n : GossipNode} → Steps p n n
  heard :
      {n n' : GossipNode} (ml : Membership) (t : ℕ)
      → Steps p n n'
      → Steps p n (receive_gossip n' ml t)
  beat : {n n' n'' : GossipNode} (t : ℕ) → heartbeat n' t ≡ some n'' → Steps p n n' → Steps p n n''
  checked :
      {n n' : GossipNode} (t : ℕ)
      → ((e : MemberEntry)
          → Dict.get n'.membership p ≡ some e
          → t - e.timestamp_last_updated ≤ n'.t_cleanup)
      → Steps p n n'
      → Steps p n (detect_failures n' t).0

heartbeat-IsDead :
    (n n' : GossipNode) (p : String) (t : ℕ) → heartbeat n t ≡ some n' → IsDead n p → IsDead n' p
unfolding heartbeat
heartbeat-IsDead n n' p t h (e, g, d) = elim (Option-cases (Dict.get n.membership n.node_id)) [
  | inl q ↦ absurd (ground arith)
  | inr (own, q) ↦ elim (Bool-cases (Node.is_dead own.status)) [
    | inl b ↦ (let same : n ≡ n' = ground arith in subst (λ x. IsDead x p) same (e, g, d))
    | inr b ↦
        let own' : MemberEntry = record own {
          heartbeat_counter = own.heartbeat_counter + 1;
          timestamp_last_updated = t;
        } in
        let next : GossipNode = record n { membership = Dict.put n.membership n.node_id own' } in
        let same : next ≡ n' = ground arith in
        elim (string_key.dec n.node_id p) [
          | yes y ↦
              let mine : own ≡ e = ground arith in
              let gone : Node.is_dead own.status ≡ true =
                ap (λ (x : MemberEntry). Node.is_dead x.status) mine ∙ ap Node.is_dead d in
              absurd (ground (arith, gone, b))
          | no y ↦
              subst (λ x. IsDead x p) same
                (e, ground (arith, get-put n.membership n.node_id own' p), d)
        ]
  ]
]

pub dead_stays :
    (p : String) (n n' : GossipNode) (e : MemberEntry)
    → Steps p n n'
    → Dict.get n.membership p ≡ some e
    → e.status ≡ dead
    → IsDead n' p
unfolding receive_gossip detect_failures
dead_stays p n n' e none_done g d = (e, g, d)
dead_stays p n n' e (heard {n' = r} ml t steps) g d =
    let (e', g', d') = dead_stays p n r e steps g d in receive_all-dead r.membership ml p t e' g' d'
dead_stays p n n' e (beat {n' = r} t h steps) g d =
    heartbeat-IsDead r n' p t h (dead_stays p n r e steps g d)
dead_stays p n n' e (checked {n' = r} t c steps) g d =
    let (e', g', d') = dead_stays p n r e steps g d in
    (e', detect_all-dead r r.membership p t e' g' d' (c e' g'), d')
