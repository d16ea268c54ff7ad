-- ===== src/TwoPhase/Participant.antt =====
-- `Participant` of two-phase-commit/two_phase_commit.py, over any type of values.
pub mod Keys
pub mod Prepared
use ddia_implementations.Prelude.{
  String, Bool, true, false, Option, none, some, List, [], ◌∷◌, ◌++◌, ◌==◌, ◌!=◌, string_key, ◌&&◌,
  if◌then◌else◌,
}
use ddia_implementations.Dict
use ddia_implementations.Dict.{Dict}

-- An operation dict; `other` has an "op" that is neither "set" nor "delete".
pub data Operation (V : Type 0) : Type 0 where
  set_op : String → V → Operation V
  delete_op : String → Operation V
  other_op : String → Operation V

abbrev pub key_of : {V : Type 0} → Operation V → String
key_of (set_op k v) = k
key_of (delete_op k) = k
key_of (other_op k) = k

pub data TxState : Type 0 where
  prepared committed aborted : TxState

pub record ParticipantEntry (V : Type 0) : Type 0 where
  pub tx_id : String
  pub state : TxState
  pub operations : List (Operation V)

pub data Reason : Type 0 where
  unavailable : Reason
  locked_by : String → String → Reason

pub data Vote : Type 0 where
  yes_vote : Vote
  no_vote : Reason → Vote

pub record Participant (V : Type 0) : Type 0 where
  pub participant_id : String
  pub store : Dict String V
  pub log : List (ParticipantEntry V)
  pub locks : Dict String String
  pub available : Bool
  pub pending : Dict String (List (Operation V))

module _ {V : Type 0} where
  unfoldable pub init : String → Participant V
  init participant_id = record {
    participant_id = participant_id;
    store = [];
    log = [];
    locks = [];
    available = true;
    pending = [];
  }

  abbrev note : Participant V → String → TxState → List (Operation V) → List (ParticipantEntry V)
  note p tx_id state operations =
      p.log ++ record { tx_id = tx_id; state = state; operations = operations } ∷ []

  -- the loop of `prepare` that looks for a key locked by another transaction
  unfoldable pub conflict : Dict String String → String → List (Operation V) → Option Reason
  conflict locks tx_id [] = none
  conflict locks tx_id (op ∷ ops) =
      let rest = conflict locks tx_id ops in
      elim (Dict.get locks (key_of op)) [
        | none ↦ rest
        | some holder ↦ if holder != tx_id then some (locked_by (key_of op) holder) else rest
      ]

  unfoldable pub lock_all : Dict String String → String → List (Operation V) → Dict String String
  lock_all locks tx_id [] = locks
  lock_all locks tx_id (op ∷ ops) = lock_all (Dict.put locks (key_of op) tx_id) tx_id ops

  unfoldable pub prepare : Participant V → String → List (Operation V) → Participant V × Vote
  unfolding conflict lock_all
  prepare p tx_id operations =
      if p.available
      then elim (conflict p.locks tx_id operations) [
        | some reason ↦ (record p { log = note p tx_id aborted [] }, no_vote reason)
        | none ↦ (
          record p {
            locks = lock_all p.locks tx_id operations;
            pending = Dict.put p.pending tx_id operations;
            log = note p tx_id prepared operations;
          },
          yes_vote,
        )
      ]
      else (p, no_vote unavailable)

  abbrev pub or_empty : Option (List (Operation V)) → List (Operation V)
  or_empty none = []
  or_empty (some ops) = ops

  -- what one operation does to the store
  unfoldable pub apply_op : Dict String V → Operation V → Dict String V
  apply_op store (set_op k v) = Dict.put store k v
  apply_op store (delete_op k) = Dict.remove store k
  apply_op store (other_op k) = store

  unfoldable pub apply_all : Dict String V → List (Operation V) → Dict String V
  unfolding apply_op
  apply_all store [] = store
  apply_all store (op ∷ ops) = apply_all (apply_op store op) ops

  abbrev is_applied : Operation V → List (Operation V) → List (Operation V)
  is_applied (other_op k) ops = ops
  is_applied op ops = op ∷ ops

  -- the list `applied` of `commit`
  unfoldable pub applied_of : List (Operation V) → List (Operation V)
  applied_of [] = []
  applied_of (op ∷ ops) = is_applied op (applied_of ops)

  -- `self.locks.pop(op["key"], None)` for each operation
  unfoldable pub unlock_all : Dict String String → List (Operation V) → Dict String String
  unlock_all locks [] = locks
  unlock_all locks (op ∷ ops) = unlock_all (Dict.remove locks (key_of op)) ops

  unfoldable pub commit : Participant V → String → Participant V × Option (List (Operation V))
  unfolding apply_all unlock_all applied_of
  commit p tx_id =
      let operations = or_empty (Dict.get p.pending tx_id) in
      if p.available
      then (
        record p {
          store = apply_all p.store operations;
          locks = unlock_all p.locks operations;
          pending = Dict.remove p.pending tx_id;
          log = note p tx_id committed [];
        },
        some (applied_of operations),
      )
      else (p, none)

  -- the loop of `abort`: a lock is given up if the transaction still has it
  unfoldable pub give_up : Dict String String → String → List (Operation V) → Dict String String
  give_up locks tx_id [] = locks
  give_up locks tx_id (op ∷ ops) =
      give_up
        (elim (Dict.get locks (key_of op)) [
          | none ↦ locks
          | some holder ↦ if holder == tx_id then Dict.remove locks (key_of op) else locks
        ])
        tx_id ops

  unfoldable pub abort : Participant V → String → Participant V × Bool
  unfolding give_up
  abort p tx_id =
      let operations = or_empty (Dict.get p.pending tx_id) in
      if p.available
      then (
        record p {
          locks = give_up p.locks tx_id operations;
          pending = Dict.remove p.pending tx_id;
          log = note p tx_id aborted [];
        },
        true,
      )
      else (p, false)

  -- the latest state of a transaction in a log: the loop goes backwards, so the last entry counts
  unfoldable pub latest : Option TxState → List (ParticipantEntry V) → String → Option TxState
  latest found [] tx_id = found
  latest found (e ∷ es) tx_id = latest (if e.tx_id == tx_id then some e.state else found) es tx_id

  unfoldable pub get_transaction_state : Participant V → String → Option TxState
  unfolding latest
  get_transaction_state p tx_id = latest none p.log tx_id

  unfoldable pub set_available : Participant V → Bool → Participant V
  set_available p available = record p { available = available }

  -- the dict `tx_states` of `recover`
  unfoldable pub states : Dict String TxState → List (ParticipantEntry V) → Dict String TxState
  states d [] = d
  states d (e ∷ es) = states (Dict.put d e.tx_id e.state) es

abbrev is_prepared : TxState → Bool
is_prepared prepared = true
is_prepared _ = false

unfoldable pub prepared_in : Dict String TxState → List String
prepared_in [] = []
prepared_in ((tx_id, state) ∷ d) =
    let rest = prepared_in d in if is_prepared state then tx_id ∷ rest else rest

unfoldable pub recover : {V : Type 0} → Participant V → List String
unfolding prepared_in states
recover p = prepared_in (states [] p.log)
