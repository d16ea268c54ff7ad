-- ===== src/Handoff/Store.antt =====
-- `HintedHandoffStore` of hinted-handoff/hinted_handoff.py. Python's hash of a key is a parameter.
-- `none` is an exception: no nodes at all, or a node that does not exist.
use ddia_implementations.Prelude.{
  ℕ, zero, suc, ◌+◌, ◌%◌, String, Bool, true, false, List, [], ◌∷◌, ◌++◌, Option, none, some,
  if◌then◌else◌, string_key, leb, ltb, ◌==◌, length, ◌>>=◌, get_elem?, get_or, not, ◌&&◌,
}
use ddia_implementations.Dict
use ddia_implementations.Sets
use ddia_implementations.Dict.{Dict}
use ddia_implementations.Handoff.Node
use ddia_implementations.Handoff.Node.{Hint}

pub record HintedHandoffStore (V : Type 0) : Type 0 where
  pub sorted_node_ids : List String
  pub nodes : Dict String (Node.Node V)
  pub replication_factor : ℕ
  pub write_quorum : ℕ
  pub read_quorum : ℕ
  pub hint_ttl : ℕ
  pub sloppy_quorum : Bool
  pub versions : Dict String ℕ

pub record WriteResult : Type 0 where
  pub success : Bool
  pub replicas_written : List String
  pub hints_stored : List (String × String)
  pub version : ℕ
  pub sloppy : Bool

-- what the loop over the preferred replicas carries
pub record Written (V : Type 0) : Type 0 where
  pub nodes : Dict String (Node.Node V)
  pub replicas_written : List String
  pub unavailable_preferred : List String

pub record ReadResult (V : Type 0) : Type 0 where
  pub value : Option V
  pub version : Option ℕ
  pub replicas_read : List String

pub record HandoffResult : Type 0 where
  pub hints_delivered : ℕ
  pub hints_expired : ℕ
  pub keys_recovered : List String

-- `[self.sorted_node_ids[(start + i) % n] for i in range(count)]`
unfoldable pub ring_from : List String → ℕ → ℕ → Option (List String)
ring_from ids start zero = some []
ring_from ids start (suc count) = do
  id ← get_elem? ids (start % length ids)
  rest ← ring_from ids (start + 1) count
  some (id ∷ rest)

-- `[nid for nid in ids if nid not in preferred]`
unfoldable pub non_preferred : List String → List String → List String
non_preferred [] preferred = []
non_preferred (nid ∷ ids) preferred =
    let rest = non_preferred ids preferred in if Sets.member nid preferred then rest else nid ∷ rest

abbrev pub placed : Option String → String → List (String × String) → List (String × String)
placed none target hints = hints
placed (some nid) target hints = (nid, target) ∷ hints

abbrev pub has_any : List (String × String) → Bool
has_any [] = false
has_any (x ∷ xs) = true

module _ {V : Type 0} where
  -- one round of the loop over the preferred replicas
  unfoldable pub write_one : Written V → String → V → ℕ → String → Option (Written V)
  write_one w key value version nid = do
    n ← Dict.get w.nodes nid
    some (
        if n.available
        then record w {
          nodes = Dict.put w.nodes nid (Node.put n key value version);
          replicas_written = w.replicas_written ++ nid ∷ [];
        }
        else record w { unavailable_preferred = w.unavailable_preferred ++ nid ∷ [] })

  unfoldable pub write_preferred : Written V → String → V → ℕ → List String → Option (Written V)
  write_preferred w key value version [] = some w
  write_preferred w key value version (nid ∷ preferred) = do
    w' ← write_one w key value version nid
    write_preferred w' key value version preferred

  -- the inner loop: the first available node keeps the hint
  unfoldable pub place_hint :
      Dict String (Node.Node V)
      → Hint V
      → List String
      → Option (Dict String (Node.Node V) × Option String)
  place_hint nodes hint [] = some (nodes, none)
  place_hint nodes hint (nid ∷ ids) =
      let rest = place_hint nodes hint ids in
      elim (Dict.get nodes nid) [
        | none ↦ none
        | some n ↦
            if n.available
            then some (Dict.put nodes nid (Node.store_hint n hint), some nid)
            else rest
      ]

  unfoldable pub place_hints :
      Dict String (Node.Node V)
      → (String → Hint V)
      → List String
      → List String
      → Option (Dict String (Node.Node V) × List (String × String))
  place_hints nodes hint_for [] ids = some (nodes, [])
  place_hints nodes hint_for (target ∷ targets) ids = do
    first ← place_hint nodes (hint_for target) ids
    more ← place_hints first.0 hint_for targets ids
    some (more.0, placed first.1 target more.1)

  -- the first of the results with the highest version
  unfoldable pub newest : Option (V × ℕ) → List (V × ℕ) → Option (V × ℕ)
  newest best [] = best
  newest none (r ∷ rs) = newest (some r) rs
  newest (some best) (r ∷ rs) = newest (if ltb best.1 r.1 then some r else some best) rs

  unfoldable pub read_preferred :
      Dict String (Node.Node V) → String → List String → Option (List (V × ℕ) × List String)
  read_preferred nodes key [] = some ([], [])
  read_preferred nodes key (nid ∷ preferred) = do
    n ← Dict.get nodes nid
    rest ← read_preferred nodes key preferred
    some (
        if n.available
        then elim (Node.get n key) [ none ↦ rest | some r ↦ (r ∷ rest.0, nid ∷ rest.1) ]
        else rest)

  -- the loop over the hints of one node: the recovered node, and the report
  unfoldable pub deliver :
      Node.Node V → List (Hint V) → ℕ → HandoffResult → Node.Node V × HandoffResult
  deliver recovered [] current_time r = (recovered, r)
  deliver recovered (h ∷ hs) current_time r =
      let late = record r { hints_expired = r.hints_expired + 1 } in
      let done = record r {
        hints_delivered = r.hints_delivered + 1;
        keys_recovered = Sets.insert h.key r.keys_recovered;
      } in
      if Node.is_expired h current_time
      then deliver recovered hs current_time late
      else deliver (Node.put recovered h.key h.value h.version) hs current_time done

  -- the loop over all nodes; the recovered node stands beside them until its end
  unfoldable pub hand_off :
      Node.Node V
      → String
      → Dict String (Node.Node V)
      → ℕ
      → HandoffResult
      → Dict String (Node.Node V) × (Node.Node V × HandoffResult)
  hand_off recovered id [] current_time r = ([], (recovered, r))
  hand_off recovered id ((k, n) ∷ nodes) current_time r =
      let skipped = hand_off recovered id nodes current_time r in
      let given = deliver recovered (Node.get_hints_for n id) current_time r in
      let rest = hand_off given.0 id nodes current_time given.1 in
      if n.node_id == id
      then ((k, n) ∷ skipped.0, skipped.1)
      else ((k, (Node.remove_hints_for n id).0) ∷ rest.0, rest.1)

  unfoldable pub trigger_handoff :
      HintedHandoffStore V → String → ℕ → Option (HintedHandoffStore V × HandoffResult)
  trigger_handoff s id current_time = do
    recovered ← Dict.get s.nodes id
    let done =
        hand_off recovered id s.nodes current_time
          (record { hints_delivered = 0; hints_expired = 0; keys_recovered = [] })
    some (record s { nodes = Dict.put done.0 id done.1.0 }, done.1.1)

  unfoldable pub set_node_available :
      HintedHandoffStore V → String → Bool → Option (HintedHandoffStore V)
  set_node_available s id available = do
    n ← Dict.get s.nodes id
    some (record s { nodes = Dict.put s.nodes id (Node.set_available n available) })

  unfoldable pub expire_each : Dict String (Node.Node V) → ℕ → Dict String (Node.Node V) × ℕ
  expire_each [] current_time = ([], 0)
  expire_each ((k, n) ∷ nodes) current_time =
      let rest = expire_each nodes current_time in
      let cleaned = Node.expire_hints n current_time in
      ((k, cleaned.0) ∷ rest.0, cleaned.1 + rest.1)

  unfoldable pub expire_all_hints : HintedHandoffStore V → ℕ → HintedHandoffStore V × ℕ
  expire_all_hints s current_time =
      let done = expire_each s.nodes current_time in (record s { nodes = done.0 }, done.1)

  -- the hints for the preferred replicas that are down, and the answer
  unfoldable pub finish_put :
      HintedHandoffStore V
      → Written V
      → List String
      → (String → Hint V)
      → ℕ
      → Option (HintedHandoffStore V × WriteResult)
  finish_put s w preferred hint_for version =
      if not s.sloppy_quorum && ltb (length w.replicas_written) s.write_quorum
      then some (
        record s { nodes = w.nodes },
        record {
          success = false;
          replicas_written = w.replicas_written;
          hints_stored = [];
          version = version;
          sloppy = false;
        },
      )
      else do
        hinted ←
            place_hints w.nodes hint_for w.unavailable_preferred
              (non_preferred s.sorted_node_ids preferred)
        some (
          record s { nodes = hinted.0 },
          record {
            success = leb s.write_quorum (length w.replicas_written + length hinted.1);
            replicas_written = w.replicas_written;
            hints_stored = hinted.1;
            version = version;
            sloppy = has_any hinted.1;
          },
        )

module _ {V : Type 0} (hash : String → ℕ) where
  unfoldable pub get_preferred_nodes : HintedHandoffStore V → String → Option (List String)
  get_preferred_nodes s key = elim s.sorted_node_ids [
    | [] ↦ none
    | id ∷ ids ↦
        ring_from s.sorted_node_ids (hash key % length s.sorted_node_ids) s.replication_factor
  ]

  unfoldable pub put :
      HintedHandoffStore V → String → V → ℕ → Option (HintedHandoffStore V × WriteResult)
  put s key value current_time = do
    let version = get_or (Dict.get s.versions key) 0 + 1
    preferred ← get_preferred_nodes s key
    w ←
        write_preferred
          (record { nodes = s.nodes; replicas_written = []; unavailable_preferred = [] }) key value
          version preferred
    finish_put (record s { versions = Dict.put s.versions key version }) w preferred
        (λ target. record {
          target_node_id = target;
          key = key;
          value = value;
          version = version;
          created_at = current_time;
          ttl = s.hint_ttl;
        })
        version

  unfoldable pub get : HintedHandoffStore V → String → Option (ReadResult V)
  get s key = do
    preferred ← get_preferred_nodes s key
    found ← read_preferred s.nodes key preferred
    some (elim (newest none found.0) [
      | none ↦ record { value = none; version = none; replicas_read = found.1 }
      | some best ↦ record { value = some best.0; version = some best.1; replicas_read = found.1 }
    ])
