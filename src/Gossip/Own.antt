-- ===== src/Gossip/Own.antt =====
-- The nodes of gossip-protocol/gossip_protocol.py keep the entries for themselves.
use ddia_implementations.Prelude.{
  ℕ, ◌+◌, String, true, List, [], ◌∷◌, none, some, ◌≡◌, ◌≢◌, refl, arith, sym, ◌∙◌, subst, inl, inr,
  Option-cases, Bool-cases, string_key, All, ◌==◌,
}
use ddia_implementations.Dict
use ddia_implementations.Dict.{Dict, get-put}
use ddia_implementations.Gossip.Node
use ddia_implementations.Gossip.Node.{
  MemberEntry, Membership, GossipNode, receive_all, receive_one, receive_gossip, detect_all,
  detect_failures, heartbeat, join, copy_members, dead,
}
use ddia_implementations.Gossip.Cluster.{GossipCluster, Nodes, is_active, seed_of, add_node}
use ddia_implementations.Gossip.Merged.{get-receive_one, get-keep}

-- the node has an entry of its own
abbrev pub HasOwn : GossipNode → Type 0
HasOwn n = Dict.get n.membership n.node_id ≢ none

abbrev pub AllOwn : Nodes → Type 0
AllOwn nodes = All (λ e. HasOwn e.1) nodes

pub get-AllOwn :
    (nodes : Nodes) (nid : String) (n : GossipNode)
    → AllOwn nodes
    → Dict.get nodes nid ≡ some n
    → HasOwn n
unfolding Dict.get
get-AllOwn [] nid n a g = cc
get-AllOwn ((k, x) ∷ nodes) nid n a g = elim (string_key.dec k nid) [
  | yes q ↦ (let same : x ≡ n = ground arith in subst HasOwn same a.0)
  | no q ↦ get-AllOwn nodes nid n a.1 (ground arith)
]

receive_one-keeps :
    (m : Membership) (nid p : String) (remote : MemberEntry) (t : ℕ)
    → Dict.get m p ≢ none
    → Dict.get (receive_one m nid remote t) p ≢ none
receive_one-keeps m nid p remote t h e = elim (Option-cases (Dict.get m p)) [
  | inl q ↦ h q
  | inr (x, q) ↦ ground (arith, get-receive_one m nid p remote t)
]

receive_all-keeps :
    (m ml : Membership) (p : String) (t : ℕ)
    → Dict.get m p ≢ none
    → Dict.get (receive_all m ml t) p ≢ none
unfolding receive_all
receive_all-keeps m [] p t h = h
receive_all-keeps m ((nid, remote) ∷ ml) p t h =
    receive_all-keeps (receive_one m nid remote t) ml p t (receive_one-keeps m nid p remote t h)

pub receive_gossip-HasOwn :
    (n : GossipNode) (ml : Membership) (t : ℕ) → HasOwn n → HasOwn (receive_gossip n ml t)
unfolding receive_gossip
receive_gossip-HasOwn n ml t h = receive_all-keeps n.membership ml n.node_id t h

get-detect_all_own :
    (n : GossipNode) (m : Membership) (t : ℕ)
    → Dict.get (detect_all n m t).0 n.node_id ≡ Dict.get m n.node_id
unfolding detect_all Dict.get
get-detect_all_own n [] t = refl
get-detect_all_own n ((nid, info) ∷ m) t = elim (string_key.dec nid n.node_id) [
  | yes q ↦ ground arith
  | no q ↦ ground (
    arith,
    get-detect_all_own n m t,
    get-keep nid n.node_id (Node.detect_one n info t).0 (detect_all n m t).0 q,
  )
]

pub detect_failures-HasOwn : (n : GossipNode) (t : ℕ) → HasOwn n → HasOwn (detect_failures n t).0
unfolding detect_failures
detect_failures-HasOwn n t h e = h (sym (get-detect_all_own n n.membership t) ∙ e)

pub heartbeat-HasOwn :
    (n : GossipNode) (t : ℕ) → HasOwn n → (n' : GossipNode) × (heartbeat n t ≡ some n') × HasOwn n'
unfolding heartbeat
heartbeat-HasOwn n t h = elim (Option-cases (Dict.get n.membership n.node_id)) [
  | inl q ↦ absurd (h q)
  | inr (own, q) ↦ elim (Bool-cases (Node.is_dead own.status)) [
    | inl b ↦ (n, ground arith, h)
    | inr b ↦
        let own' : MemberEntry = record own {
          heartbeat_counter = own.heartbeat_counter + 1;
          timestamp_last_updated = t;
        } in
        (
          record n { membership = Dict.put n.membership n.node_id own' },
          ground arith,
          λ e. ground (arith, get-put n.membership n.node_id own' n.node_id),
        )
  ]
]

pub put-AllOwn :
    (nodes : Nodes) (nid : String) (n : GossipNode)
    → AllOwn nodes
    → HasOwn n
    → AllOwn (Dict.put nodes nid n)
unfolding Dict.put
put-AllOwn [] nid n a h = (h, tt)
put-AllOwn ((k, x) ∷ nodes) nid n a h = elim (string_key.dec k nid) [
  | yes q ↦
      let same : (k, n) ∷ nodes ≡ Dict.put ((k, x) ∷ nodes) nid n = ground arith in
      subst AllOwn same (h, a.1)
  | no q ↦
      let same : (k, x) ∷ Dict.put nodes nid n ≡ Dict.put ((k, x) ∷ nodes) nid n = ground arith in
      subst AllOwn same (a.0, put-AllOwn nodes nid n a.1 h)
]

copy_members-keeps :
    (m seed : Membership) (own p : String)
    → Dict.get m p ≢ none
    → Dict.get (copy_members m own seed) p ≢ none
unfolding copy_members
copy_members-keeps m [] own p h = h
copy_members-keeps m ((nid, info) ∷ seed) own p h = elim (Bool-cases (nid == own)) [
  | inl q ↦
      let same : copy_members m own seed ≡ copy_members m own ((nid, info) ∷ seed) = ground arith in
      subst (λ x. Dict.get x p ≢ none) same (copy_members-keeps m seed own p h)
  | inr q ↦
      let same : copy_members (Dict.put m nid info) own seed
          ≡ copy_members m own ((nid, info) ∷ seed) =
        ground arith in
      subst (λ x. Dict.get x p ≢ none) same
        (copy_members-keeps (Dict.put m nid info) seed own p
          (λ e. h (ground (arith, get-put m nid info p))))
]

join-HasOwn :
    (n seed : GossipNode)
    → HasOwn n
    → HasOwn seed
    → (n' : GossipNode) × (seed' : GossipNode) × (join n seed ≡ some (n', seed'))
      × HasOwn n'
      × HasOwn seed'
unfolding join
join-HasOwn n seed h g = elim (Option-cases (Dict.get seed.membership seed.node_id)) [
  | inl q ↦ absurd (g q)
  | inr (s, q) ↦
      let m : Membership = copy_members n.membership n.node_id seed.membership in
      elim (Option-cases (Dict.get m n.node_id)) [
        | inl e ↦ absurd (copy_members-keeps n.membership seed.membership n.node_id n.node_id h e)
        | inr (x, e) ↦
            let mine : MemberEntry = record x {
              timestamp_last_updated = s.timestamp_last_updated;
            } in
            (
              record n { membership = Dict.put m n.node_id mine },
              record seed { membership = Dict.put seed.membership n.node_id mine },
              ground arith,
              (λ z. ground (arith, get-put m n.node_id mine n.node_id)),
              (λ z. g (ground (arith, get-put seed.membership n.node_id mine seed.node_id))),
            )
      ]
]

init-HasOwn : (id : String) (a b c : ℕ) → HasOwn (Node.init id a b c)
unfolding Node.init Dict.get
init-HasOwn id a b c e = ground arith

pub leave-HasOwn : (n n' : GossipNode) → HasOwn n → Node.leave n ≡ some n' → HasOwn n'
unfolding Node.leave
leave-HasOwn n n' h e = elim (Option-cases (Dict.get n.membership n.node_id)) [
  | inl q ↦ absurd (h q)
  | inr (x, q) ↦
      let gone : MemberEntry = record x { status = dead } in
      let left : GossipNode = record n {
        membership = Dict.put n.membership n.node_id gone;
        is_leaving = true;
      } in
      let same : left ≡ n' = ground arith in
      subst HasOwn same (λ z. ground (arith, get-put n.membership n.node_id gone n.node_id))
]

seed_of-HasOwn :
    (failed : List String) (nodes : Nodes) (k : String) (n : GossipNode)
    → AllOwn nodes
    → seed_of failed nodes ≡ some (k, n)
    → HasOwn n
unfolding seed_of
seed_of-HasOwn failed [] k n a e = cc
seed_of-HasOwn failed ((j, x) ∷ nodes) k n a e = elim (Bool-cases (is_active failed j x)) [
  | inl b ↦ (let same : x ≡ n = ground arith in subst HasOwn same a.0)
  | inr b ↦ seed_of-HasOwn failed nodes k n a.1 (ground arith)
]

pub add_node-AllOwn :
    (c : GossipCluster) (id : String)
    → AllOwn c.nodes
    → (c' : GossipCluster) × (add_node c id ≡ some c') × AllOwn c'.nodes
unfolding add_node
add_node-AllOwn c id a =
    let n : GossipNode = Node.init id c.t_suspect c.t_dead c.t_cleanup in
    let own = init-HasOwn id c.t_suspect c.t_dead c.t_cleanup in
    elim (Option-cases (seed_of c.failed_nodes c.nodes)) [
      | inl q ↦
          (record c { nodes = Dict.put c.nodes id n }, ground arith, put-AllOwn c.nodes id n a own)
      | inr (ks, q) ↦
          let (n', seed', j, h, g) =
            join-HasOwn n ks.1 own (seed_of-HasOwn c.failed_nodes c.nodes ks.0 ks.1 a q) in
          let first : Nodes = Dict.put c.nodes ks.0 seed' in
          (
            record c { nodes = Dict.put first id n' },
            ground (arith, j),
            put-AllOwn first id n' (put-AllOwn c.nodes ks.0 seed' a g) h,
          )
    ]
