-- ===== src/Gossip/Rounds.antt =====
-- The rounds of gossip-protocol/gossip_protocol.py do not raise.
use ddia_implementations.Gossip.Goes.{
  Known, exchange_all-Goes, Goes, detect_each-Goes, Goes-here, Known-keeps, Goes-change, put-keeps,
}
use ddia_implementations.Gossip.Own.{
  AllOwn, add_node-AllOwn, receive_gossip-HasOwn, put-AllOwn, get-AllOwn, leave-HasOwn,
}
use ddia_implementations.Prelude.{
  ℕ, zero, suc, ◌+◌, String, false, List, [], ◌∷◌, none, some, ◌≡◌, ◌≢◌, refl, arith, ap, ◌∙◌,
  subst, inl, inr, Option-cases, Bool-cases, string_key, ◌>>=◌, ◌==◌, ◌&&◌,
}
use ddia_implementations.Dict
use ddia_implementations.Dict.{Dict, get-put}
use ddia_implementations.Gossip.Node
use ddia_implementations.Gossip.Node.{
  MemberEntry, Membership, GossipNode, receive_all, receive_one, receive_gossip, detect_all,
  detect_failures, heartbeat, join, copy_members,
}
use ddia_implementations.Gossip.Cluster
use ddia_implementations.Gossip.Cluster.{
  GossipCluster, Nodes, is_active, seed_of, add_node, remove_node, active_ids, leaving_ids,
  tell_peers, say_goodbye, peers_of, exchange_with, exchange, exchange_all, detect_each,
  gossip_round, run_rounds,
}

tell_peers-Goes :
    (nodes : Nodes) (nid : String) (gossip : Membership) (peers : List String) (t : ℕ)
    → AllOwn nodes
    → Known nodes peers
    → Goes nodes (tell_peers nodes nid gossip peers t)
unfolding tell_peers
tell_peers-Goes nodes nid gossip [] t a k = Goes-here nodes a
tell_peers-Goes nodes nid gossip (p ∷ peers) t a k = elim (Bool-cases (p == nid)) [
  | inl b ↦
      let same : tell_peers nodes nid gossip peers t ≡ tell_peers nodes nid gossip (p ∷ peers) t =
        ground arith in
      subst (Goes nodes) same (tell_peers-Goes nodes nid gossip peers t a k.1)
  | inr b ↦ elim (Option-cases (Dict.get nodes p)) [
    | inl q ↦ absurd (k.0 q)
    | inr (n, q) ↦
        let n' : GossipNode = receive_gossip n gossip t in
        let first : Nodes = Dict.put nodes p n' in
        let same : tell_peers first nid gossip peers t ≡ tell_peers nodes nid gossip (p ∷ peers) t =
          ground arith in
        subst (Goes nodes) same (
          Goes-change nodes p n n' (tell_peers first nid gossip peers t) a
            (receive_gossip-HasOwn n gossip t (get-AllOwn nodes p n a q))
            (λ c.
              tell_peers-Goes first nid gossip peers t c
                (Known-keeps nodes first peers (put-keeps nodes p n') k.1)))
  ]
]

say_goodbye-Goes :
    (nodes : Nodes) (active leaving : List String) (t : ℕ)
    → AllOwn nodes
    → Known nodes active
    → Known nodes leaving
    → Goes nodes (say_goodbye nodes active leaving t)
unfolding say_goodbye
say_goodbye-Goes nodes active [] t a k h = Goes-here nodes a
say_goodbye-Goes nodes active (nid ∷ leaving) t a k h = elim (Option-cases (Dict.get nodes nid)) [
  | inl q ↦ absurd (h.0 q)
  | inr (n, q) ↦
      let told = tell_peers-Goes nodes nid n.membership active t a k in
      elim (Option-cases (Dict.get told.next nid)) [
        | inl e ↦ absurd (told.keeps nid h.0 e)
        | inr (x, e) ↦
            let gone : GossipNode = record x { is_alive = false; is_leaving = false } in
            let left : Nodes = Dict.put told.next nid gone in
            let up : (j : String) → Dict.get nodes j ≢ none → Dict.get left j ≢ none =
              λ j g. put-keeps told.next nid gone j (told.keeps j g) in
            let rest =
              say_goodbye-Goes left active leaving t
                (put-AllOwn told.next nid gone told.owns (get-AllOwn told.next nid x told.owns e))
                (Known-keeps nodes left active up k) (Known-keeps nodes left leaving up h.1) in
            record {
              next = rest.next;
              returns = ground (arith, told.returns, rest.returns);
              owns = rest.owns;
              keeps = λ j g. rest.keeps j (up j g);
            }
      ]
]

Known-cons :
    (k : String) (n : GossipNode) (nodes : Nodes) (ids : List String)
    → Known nodes ids
    → Known ((k, n) ∷ nodes) ids
unfolding Dict.get
Known-cons k n nodes [] h = tt
Known-cons k n nodes (p ∷ ids) h = ((λ e. h.0 (ground arith)), Known-cons k n nodes ids h.1)

Known-head : (k : String) (n : GossipNode) (nodes : Nodes) → Dict.get ((k, n) ∷ nodes) k ≢ none
unfolding Dict.get
Known-head k n nodes e = ground arith

active_ids-Known : (failed : List String) (nodes : Nodes) → Known nodes (active_ids failed nodes)
unfolding active_ids
active_ids-Known failed [] = tt
active_ids-Known failed ((k, n) ∷ nodes) =
    let rest = Known-cons k n nodes (active_ids failed nodes) (active_ids-Known failed nodes) in
    elim (Bool-cases (is_active failed k n)) [
      | inl b ↦
          let same : k ∷ active_ids failed nodes ≡ active_ids failed ((k, n) ∷ nodes) =
            ground arith in
          subst (Known ((k, n) ∷ nodes)) same (Known-head k n nodes, rest)
      | inr b ↦
          let same : active_ids failed nodes ≡ active_ids failed ((k, n) ∷ nodes) = ground arith in
          subst (Known ((k, n) ∷ nodes)) same rest
    ]

leaving_ids-Known : (failed : List String) (nodes : Nodes) → Known nodes (leaving_ids failed nodes)
unfolding leaving_ids
leaving_ids-Known failed [] = tt
leaving_ids-Known failed ((k, n) ∷ nodes) =
    let rest = Known-cons k n nodes (leaving_ids failed nodes) (leaving_ids-Known failed nodes) in
    elim (Bool-cases (is_active failed k n && n.is_leaving)) [
      | inl b ↦
          let same : k ∷ leaving_ids failed nodes ≡ leaving_ids failed ((k, n) ∷ nodes) =
            ground arith in
          subst (Known ((k, n) ∷ nodes)) same (Known-head k n nodes, rest)
      | inr b ↦
          let same : leaving_ids failed nodes ≡ leaving_ids failed ((k, n) ∷ nodes) =
            ground arith in
          subst (Known ((k, n) ∷ nodes)) same rest
    ]

gossip_round-AllOwn :
    (c : GossipCluster) (pick : String → ℕ) (t : ℕ)
    → AllOwn c.nodes
    → (c' : GossipCluster) × (gossip_round c pick t ≡ some c') × AllOwn c'.nodes
unfolding gossip_round
gossip_round-AllOwn c pick t a =
    let f = c.failed_nodes in
    let left =
      say_goodbye-Goes c.nodes (active_ids f c.nodes) (leaving_ids f c.nodes) t a
        (active_ids-Known f c.nodes) (leaving_ids-Known f c.nodes) in
    let active : List String = active_ids f left.next in
    let known = active_ids-Known f left.next in
    let talked = exchange_all-Goes left.next active pick active t left.owns known known in
    let found =
      detect_each-Goes talked.next active t talked.owns
        (Known-keeps left.next talked.next active talked.keeps known) in
    (
      record c { nodes = found.next },
      ground (arith, left.returns, talked.returns, found.returns),
      found.owns,
    )

-- a cluster after calls of its methods, and of `leave` of its nodes
pub data Live : GossipCluster → Type 0 where
  begun : (t_suspect t_dead t_cleanup : ℕ) → Live (Cluster.init t_suspect t_dead t_cleanup)
  joined : {c c' : GossipCluster} (id : String) → add_node c id ≡ some c' → Live c → Live c'
  crashed : {c : GossipCluster} (id : String) → Live c → Live (remove_node c id)
  left :
      {c : GossipCluster} (id : String) (n n' : GossipNode)
      → Dict.get c.nodes id ≡ some n
      → Node.leave n ≡ some n'
      → Live c
      → Live (record c { nodes = Dict.put c.nodes id n' })
  gossiped :
      {c c' : GossipCluster} (pick : String → ℕ) (t : ℕ)
      → gossip_round c pick t ≡ some c'
      → Live c
      → Live c'

Live-AllOwn : (c : GossipCluster) → Live c → AllOwn c.nodes
unfolding Cluster.init remove_node
Live-AllOwn c (begun a b d) = tt
Live-AllOwn c (joined {c = r} id e l) =
    let (c', q, a) = add_node-AllOwn r id (Live-AllOwn r l) in
    let same : c' ≡ c = ground (arith, q, e) in subst (λ x. AllOwn x.nodes) same a
Live-AllOwn c (crashed {c = r} id l) = Live-AllOwn r l
Live-AllOwn c (left {c = r} id n n' g e l) =
    let a = Live-AllOwn r l in
    put-AllOwn r.nodes id n' a (leave-HasOwn n n' (get-AllOwn r.nodes id n a g) e)
Live-AllOwn c (gossiped {c = r} pick t e l) =
    let (c', q, a) = gossip_round-AllOwn r pick t (Live-AllOwn r l) in
    let same : c' ≡ c = ground (arith, q, e) in subst (λ x. AllOwn x.nodes) same a

run_rounds-AllOwn :
    (c : GossipCluster) (picks : ℕ → String → ℕ) (num_rounds start_time : ℕ)
    → AllOwn c.nodes
    → (c' : GossipCluster) × (run_rounds c picks num_rounds start_time ≡ some c') × AllOwn c'.nodes
unfolding run_rounds
run_rounds-AllOwn c picks zero start_time a = (c, refl, a)
run_rounds-AllOwn c picks (suc n) start_time a =
    let (c', r, b) = gossip_round-AllOwn c (picks start_time) start_time a in
    let (c'', r', b') = run_rounds-AllOwn c' picks n (start_time + 1) b in
    (c'', ap (λ o. o >>= (λ x. run_rounds x picks n (start_time + 1))) r ∙ r', b')

-- Gossip does not stop: after any calls of the cluster's methods, and of `leave` of its nodes,
-- another node can join, and any number of rounds, with any choices of peers, runs to its end
-- without a KeyError.
pub run_rounds-Live :
    (c : GossipCluster) (id : String) (picks : ℕ → String → ℕ) (num_rounds start_time : ℕ)
    → Live c
    → (add_node c id ≢ none) × (run_rounds c picks num_rounds start_time ≢ none)
run_rounds-Live c id picks num_rounds start_time l =
    let a = Live-AllOwn c l in
    let (c', q, b) = add_node-AllOwn c id a in
    let (c'', q', b') = run_rounds-AllOwn c picks num_rounds start_time a in
    ((λ e. ground (arith, q, e)), (λ e. ground (arith, q', e)))
