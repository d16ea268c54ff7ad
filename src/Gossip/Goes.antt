-- ===== src/Gossip/Goes.antt =====
-- The loops of gossip-protocol/gossip_protocol.py over its nodes do not raise.
use ddia_implementations.Gossip.Own.{
  AllOwn, HasOwn, detect_failures-HasOwn, heartbeat-HasOwn, receive_gossip-HasOwn, put-AllOwn,
  get-AllOwn,
}
use ddia_implementations.Prelude.{
  ℕ, zero, suc, String, List, [], ◌∷◌, Option, none, some, ◌≡◌, ◌≢◌, refl, arith, ap, sym, ◌∙◌,
  subst, inl, inr, Option-cases, Bool-cases, string_key, ◌>>=◌, All, get_elem?, length, ◌==◌, ◌%◌,
}
use ddia_implementations.Dict
use ddia_implementations.Dict.{Dict, get-put}
use ddia_implementations.Gossip.Node.{GossipNode, receive_gossip, detect_failures}
use ddia_implementations.Gossip.Cluster.{
  Nodes, peers_of, exchange_with, exchange, exchange_all, detect_each,
}

-- these nodes are there
abbrev pub Known : Nodes → List String → Type 0
Known nodes ids = All (λ nid. Dict.get nodes nid ≢ none) ids

-- a step over the nodes that returns, keeps the nodes and their own entries
pub record Goes (nodes : Nodes) (step : Option Nodes) : Type 0 where
  pub next : Nodes
  pub returns : step ≡ some next
  pub owns : AllOwn next
  pub keeps : (nid : String) → Dict.get nodes nid ≢ none → Dict.get next nid ≢ none

pub Known-keeps :
    (nodes next : Nodes) (ids : List String)
    → ((nid : String) → Dict.get nodes nid ≢ none → Dict.get next nid ≢ none)
    → Known nodes ids
    → Known next ids
Known-keeps nodes next [] k h = tt
Known-keeps nodes next (nid ∷ ids) k h = (k nid h.0, Known-keeps nodes next ids k h.1)

pub put-keeps :
    (nodes : Nodes) (nid : String) (n : GossipNode) (j : String)
    → Dict.get nodes j ≢ none
    → Dict.get (Dict.put nodes nid n) j ≢ none
put-keeps nodes nid n j h e = h (ground (arith, get-put nodes nid n j))

pub Goes-bind :
    (nodes : Nodes) (m : Option Nodes) (f : Nodes → Option Nodes)
    → (a : Goes nodes m) → Goes a.next (f a.next)
    → Goes nodes (m >>= f)
Goes-bind nodes m f a b = record {
  next = b.next;
  returns = ap (λ t. t >>= f) a.returns ∙ b.returns;
  owns = b.owns;
  keeps = λ nid h. b.keeps nid (a.keeps nid h);
}

pub Goes-here : (nodes : Nodes) → AllOwn nodes → Goes nodes (some nodes)
Goes-here nodes a = record { next = nodes; returns = refl; owns = a; keeps = λ nid h. h }

-- a node is looked up and put back changed, and the rest goes on
pub Goes-change :
    (nodes : Nodes) (nid : String) (n n' : GossipNode) (step : Option Nodes)
    → AllOwn nodes
    → HasOwn n'
    → (AllOwn (Dict.put nodes nid n') → Goes (Dict.put nodes nid n') step)
    → Goes nodes step
Goes-change nodes nid n n' step a h go =
    let b = go (put-AllOwn nodes nid n' a h) in
    record {
      next = b.next;
      returns = b.returns;
      owns = b.owns;
      keeps = λ j g. b.keeps j (put-keeps nodes nid n' j g);
    }

pub detect_each-Goes :
    (nodes : Nodes) (ids : List String) (t : ℕ)
    → AllOwn nodes
    → Known nodes ids
    → Goes nodes (detect_each nodes ids t)
unfolding detect_each
detect_each-Goes nodes [] t a k = Goes-here nodes a
detect_each-Goes nodes (nid ∷ ids) t a k = elim (Option-cases (Dict.get nodes nid)) [
  | inl q ↦ absurd (k.0 q)
  | inr (n, q) ↦
      let n' : GossipNode = (detect_failures n t).0 in
      subst (Goes nodes)
        (sym
          (ap (λ o. o >>= (λ x. detect_each (Dict.put nodes nid (detect_failures x t).0) ids t)) q))
        (Goes-change nodes nid n n' (detect_each (Dict.put nodes nid n') ids t) a
          (detect_failures-HasOwn n t (get-AllOwn nodes nid n a q))
          (λ b.
            detect_each-Goes (Dict.put nodes nid n') ids t b
              (Known-keeps nodes (Dict.put nodes nid n') ids (put-keeps nodes nid n') k.1)))
]

exchange_with-Goes :
    (nodes : Nodes) (nid : String) (n : GossipNode) (peer_id : String) (t : ℕ)
    → AllOwn nodes
    → HasOwn n
    → Dict.get nodes peer_id ≢ none
    → Goes nodes (exchange_with nodes nid n peer_id t)
unfolding exchange_with
exchange_with-Goes nodes nid n peer_id t a h k = elim (Option-cases (Dict.get nodes peer_id)) [
  | inl q ↦ absurd (k q)
  | inr (peer, q) ↦
      let n' : GossipNode = receive_gossip n peer.membership t in
      let peer' : GossipNode = receive_gossip peer n.membership t in
      let first : Nodes = Dict.put nodes nid n' in
      record {
        next = Dict.put first peer_id peer';
        returns = ground arith;
        owns =
            put-AllOwn first peer_id peer'
              (put-AllOwn nodes nid n' a (receive_gossip-HasOwn n peer.membership t h))
              (receive_gossip-HasOwn peer n.membership t (get-AllOwn nodes peer_id peer a q));
        keeps = λ j g. put-keeps first peer_id peer' j (put-keeps nodes nid n' j g);
      }
]

Known-peers_of :
    (nodes : Nodes) (nid : String) (ids : List String)
    → Known nodes ids
    → Known nodes (peers_of nid ids)
unfolding peers_of
Known-peers_of nodes nid [] k = tt
Known-peers_of nodes nid (p ∷ ids) k = elim (Bool-cases (p == nid)) [
  | inl q ↦ subst (Known nodes) (ground arith) (Known-peers_of nodes nid ids k.1)
  | inr q ↦
      let same : p ∷ peers_of nid ids ≡ peers_of nid (p ∷ ids) = ground arith in
      subst (Known nodes) same (k.0, Known-peers_of nodes nid ids k.1)
]

Known-get_elem? :
    (nodes : Nodes) (ids : List String) (i : ℕ) (p : String)
    → Known nodes ids
    → get_elem? ids i ≡ some p
    → Dict.get nodes p ≢ none
Known-get_elem? nodes [] i p k e = cc
Known-get_elem? nodes (x ∷ ids) zero p k e = subst (λ y. Dict.get nodes y ≢ none) (ground arith) k.0
Known-get_elem? nodes (x ∷ ids) (suc i) p k e = Known-get_elem? nodes ids i p k.1 e

exchange-Goes :
    (nodes : Nodes) (active : List String) (pick : String → ℕ) (nid : String) (t : ℕ)
    → AllOwn nodes
    → Known nodes active
    → Dict.get nodes nid ≢ none
    → Goes nodes (exchange nodes active pick nid t)
unfolding exchange
exchange-Goes nodes active pick nid t a k h = elim (Option-cases (Dict.get nodes nid)) [
  | inl q ↦ absurd (h q)
  | inr (n, q) ↦
      let (n', b, own) = heartbeat-HasOwn n t (get-AllOwn nodes nid n a q) in
      let first : Nodes = Dict.put nodes nid n' in
      let known =
        Known-peers_of first nid active
          (Known-keeps nodes first active (put-keeps nodes nid n') k) in
      elim (Option-cases
        (get_elem? (peers_of nid active) (pick nid % length (peers_of nid active)))) [
          | inl e ↦
              let same : some first ≡ exchange nodes active pick nid t = ground arith in
              subst (Goes nodes) same
                (Goes-change nodes nid n n' (some first) a own (Goes-here first))
          | inr (p, e) ↦
              let same : exchange_with first nid n' p t ≡ exchange nodes active pick nid t =
                ground arith in
              subst (Goes nodes) same (
                Goes-change nodes nid n n' (exchange_with first nid n' p t) a own (λ c.
                  exchange_with-Goes first nid n' p t c own
                    (Known-get_elem? first (peers_of nid active) _ p known e)))
        ]
]

pub exchange_all-Goes :
    (nodes : Nodes) (active : List String) (pick : String → ℕ) (ids : List String) (t : ℕ)
    → AllOwn nodes
    → Known nodes active
    → Known nodes ids
    → Goes nodes (exchange_all nodes active pick ids t)
unfolding exchange_all
exchange_all-Goes nodes active pick [] t a k h = Goes-here nodes a
exchange_all-Goes nodes active pick (nid ∷ ids) t a k h =
    let first = exchange-Goes nodes active pick nid t a k h.0 in
    Goes-bind nodes (exchange nodes active pick nid t) (λ x. exchange_all x active pick ids t) first
      (exchange_all-Goes first.next active pick ids t first.owns
        (Known-keeps nodes first.next active first.keeps k)
        (Known-keeps nodes first.next ids first.keeps h.1))
