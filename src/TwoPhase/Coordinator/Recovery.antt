-- ===== src/TwoPhase/Coordinator/Recovery.antt =====
-- `Coordinator.recover` and `get_transaction_state` of two-phase-commit/two_phase_commit.py.
use ddia_implementations.Prelude.{
  ◌>>=◌, ℕ, ◌+◌, [], ◌∷◌, List, String, Option, Bool, some, none, true, false, if◌then◌else◌, ◌++◌,
  ◌&&◌, ◌==◌, string_key,
}
use ddia_implementations.Dict
use ddia_implementations.Dict.{Dict}
use ddia_implementations.TwoPhase.Participant
use ddia_implementations.TwoPhase.Participant.{Participant, TxState}
use ddia_implementations.TwoPhase.Coordinator.{
  Coordinator, Stage, preparing, committing, committed, aborting, aborted,
}

-- the latest state of a transaction in the log: the loop goes backwards, so the last entry counts
unfoldable pub latest_stage : Option Stage → List (String × Stage) → String → Option Stage
latest_stage found [] tx_id = found
latest_stage found (e ∷ es) tx_id = latest_stage (if e.0 == tx_id then some e.1 else found) es tx_id

-- the dicts `tx_states` and `tx_participants` of `recover`
unfoldable pub stages : Dict String Stage → List (String × Stage) → Dict String Stage
stages d [] = d
stages d (e ∷ es) = stages (Dict.put d e.0 e.1) es

abbrev pub add_pids : Dict String (List String) → String → Stage → Dict String (List String)
add_pids d tx_id (preparing pids) = Dict.put d tx_id pids
add_pids d tx_id stage = d

unfoldable pub prepared_pids :
    Dict String (List String) → List (String × Stage) → Dict String (List String)
prepared_pids d [] = d
prepared_pids d (e ∷ es) = prepared_pids (add_pids d e.0 e.1) es

abbrev pub pids_of : Option (List String) → List String
pids_of none = []
pids_of (some pids) = pids

abbrev pub is_prepared : Option TxState → Bool
is_prepared (some Participant.prepared) = true
is_prepared s = false

-- what the loop over the transactions carries
pub record Recovery (V : Type 0) : Type 0 where
  pub participants : Dict String (Participant V)
  pub log : List (String × Stage)
  pub recovered_transactions : List String
  pub decisions_resent : ℕ

module _ {V : Type 0} where
  unfoldable pub get_transaction_state : Coordinator V → String → Option Stage
  get_transaction_state c tx_id = latest_stage none c.log tx_id

  -- one round of the loop over `pids`; `none` is the `KeyError` of an unknown participant
  unfoldable pub resend :
      (Participant V → Participant V) → String → Recovery V → String → Option (Recovery V)
  resend decide tx_id s pid = do
    p ← Dict.get s.participants pid
    some (
        if p.available && is_prepared (Participant.get_transaction_state p tx_id)
        then record s {
          participants = Dict.put s.participants pid (decide p);
          decisions_resent = s.decisions_resent + 1;
        }
        else s)

  unfoldable pub resend_all :
      (Participant V → Participant V) → String → Recovery V → List String → Option (Recovery V)
  resend_all decide tx_id s [] = some s
  resend_all decide tx_id s (pid ∷ pids) = do
    s' ← resend decide tx_id s pid
    resend_all decide tx_id s' pids

  -- the two branches: resend, then note the end of the transaction
  unfoldable pub finish :
      (Participant V → Participant V)
      → Stage
      → String
      → List String
      → Recovery V
      → Option (Recovery V)
  finish decide stage tx_id pids s = do
    s' ← resend_all decide tx_id s pids
    some (record s' {
      log = s'.log ++ (tx_id, stage) ∷ [];
      recovered_transactions = s'.recovered_transactions ++ tx_id ∷ [];
    })

  unfoldable pub recover_one : String → Stage → List String → Recovery V → Option (Recovery V)
  recover_one tx_id committing pids s =
      finish (λ p. (Participant.commit p tx_id).0) committed tx_id pids s
  recover_one tx_id aborting pids s =
      finish (λ p. (Participant.abort p tx_id).0) aborted tx_id pids s
  recover_one tx_id stage pids s = some s

  unfoldable pub recover_all :
      Dict String (List String) → Dict String Stage → Recovery V → Option (Recovery V)
  recover_all known [] s = some s
  recover_all known ((tx_id, stage) ∷ rest) s = do
    s' ← recover_one tx_id stage (pids_of (Dict.get known tx_id)) s
    recover_all known rest s'

  unfoldable pub recover : Coordinator V → Option (Coordinator V × Recovery V)
  recover c = do
    s ← recover_all (prepared_pids [] c.log) (stages [] c.log) (record {
      participants = c.participants;
      log = c.log;
      recovered_transactions = [];
      decisions_resent = 0;
    })
    some (record c { participants = s.participants; log = s.log }, s)
