-- ===== src/Handoff/Node.antt =====
-- `Hint` and `Node` of hinted-handoff/hinted_handoff.py, over any type of values.
use ddia_implementations.Prelude.{
  ℕ, ◌+◌, ◌-◌, String, Bool, true, List, [], ◌∷◌, ◌++◌, Option, none, some, if◌then◌else◌,
  string_key, leb, ◌==◌, length,
}
use ddia_implementations.Dict
use ddia_implementations.Dict.{Dict}

pub record Hint (V : Type 0) : Type 0 where
  pub target_node_id : String
  pub key : String
  pub value : V
  pub version : ℕ
  pub created_at : ℕ
  pub ttl : ℕ

pub record Node (V : Type 0) : Type 0 where
  pub node_id : String
  pub store : Dict String (V × ℕ)
  pub hints : List (Hint V)
  pub available : Bool

module _ {V : Type 0} where
  unfoldable pub is_expired : Hint V → ℕ → Bool
  is_expired h current_time = leb (h.created_at + h.ttl) current_time

  unfoldable pub init : String → Node V
  init node_id = record { node_id = node_id; store = []; hints = []; available = true }

  -- `existing is None or version >= existing[1]`
  abbrev pub accepts : Option (V × ℕ) → ℕ → Bool
  accepts none version = true
  accepts (some existing) version = leb existing.1 version

  unfoldable pub put : Node V → String → V → ℕ → Node V
  put n key value version =
      if accepts (Dict.get n.store key) version
      then record n { store = Dict.put n.store key (value, version) }
      else n

  unfoldable pub get : Node V → String → Option (V × ℕ)
  get n key = Dict.get n.store key

  unfoldable pub store_hint : Node V → Hint V → Node V
  store_hint n h = record n { hints = n.hints ++ h ∷ [] }

  unfoldable pub hints_for : List (Hint V) → String → List (Hint V)
  hints_for [] target = []
  hints_for (h ∷ hs) target =
      let rest = hints_for hs target in if h.target_node_id == target then h ∷ rest else rest

  unfoldable pub hints_without : List (Hint V) → String → List (Hint V)
  hints_without [] target = []
  hints_without (h ∷ hs) target =
      let rest = hints_without hs target in if h.target_node_id == target then rest else h ∷ rest

  unfoldable pub get_hints_for : Node V → String → List (Hint V)
  get_hints_for n target = hints_for n.hints target

  unfoldable pub remove_hints_for : Node V → String → Node V × ℕ
  remove_hints_for n target = (
    record n { hints = hints_without n.hints target },
    length n.hints - length (hints_without n.hints target),
  )

  unfoldable pub fresh_hints : List (Hint V) → ℕ → List (Hint V)
  fresh_hints [] current_time = []
  fresh_hints (h ∷ hs) current_time =
      let rest = fresh_hints hs current_time in if is_expired h current_time then rest else h ∷ rest

  unfoldable pub expire_hints : Node V → ℕ → Node V × ℕ
  expire_hints n current_time = (
    record n { hints = fresh_hints n.hints current_time },
    length n.hints - length (fresh_hints n.hints current_time),
  )

  unfoldable pub set_available : Node V → Bool → Node V
  set_available n available = record n { available = available }
