-- ===== src/TwoPhase/Coordinator.antt =====
-- `Coordinator` of two-phase-commit/two_phase_commit.py. `none` is the `KeyError` of an access to a
-- participant that does not exist. `itertools.count` is a counter of the state, and `tx_name` formats
-- its values, f"tx-{n:03d}".
pub mod Effect
pub mod Atomic
pub mod Recovery
pub mod Endings
pub mod Resolved
use ddia_implementations.Prelude.{
  ◌>>=◌, ℕ, ◌+◌, [], ◌∷◌, List, String, Option, Bool, some, true, if◌then◌else◌, ◌++◌, false, ◌&&◌,
  none, string_key, map,
}
use ddia_implementations.Dict
use ddia_implementations.Dict.{Dict}
use ddia_implementations.TwoPhase.Participant
use ddia_implementations.TwoPhase.Participant.{Participant, Operation, Reason}

-- The states of the coordinator's log.
pub data Stage : Type 0 where
  initiated : Stage
  preparing : List String → Stage
  voted : Dict String Bool → Stage
  committing committed aborting aborted : Stage

pub record Coordinator (V : Type 0) : Type 0 where
  pub participants : Dict String (Participant V)
  pub log : List (String × Stage)
  pub available : Bool
  pub tx_counter : ℕ

pub data Outcome : Type 0 where
  committed_outcome aborted_outcome : Outcome

pub data AbortReason : Type 0 where
  coordinator_unavailable : AbortReason
  timeout : String → AbortReason
  refused : Reason → AbortReason

-- the dict that `execute_transaction` returns
pub record Report : Type 0 where
  pub tx_id : String
  pub outcome : Outcome
  pub votes : Dict String Bool
  pub reason : Option AbortReason

-- what the loop over the participants of phase 1 carries
pub record Ballot (V : Type 0) : Type 0 where
  pub participants : Dict String (Participant V)
  pub votes : Dict String Bool
  pub reason : Option AbortReason

abbrev is_yes : Participant.Vote → Bool
is_yes Participant.yes_vote = true
is_yes (Participant.no_vote r) = false

abbrev why : Participant.Vote → Option AbortReason → Option AbortReason
why Participant.yes_vote old = old
why (Participant.no_vote r) old = some (refused r)

-- `all(v == "yes" for v in votes.values())`
unfoldable pub all_yes : Dict String Bool → Bool
all_yes [] = true
all_yes ((pid, v) ∷ votes) = v && all_yes votes

module _ {V : Type 0} where
  -- `{pid: Participant(pid) for pid in participant_ids}`
  unfoldable pub make_participants :
      Dict String (Participant V) → List String → Dict String (Participant V)
  make_participants d [] = d
  make_participants d (pid ∷ pids) = make_participants (Dict.put d pid (Participant.init pid)) pids

  unfoldable pub init : List String → Coordinator V
  unfolding make_participants
  init ids = record {
    participants = make_participants [] ids;
    log = [];
    available = true;
    tx_counter = 1;
  }

  -- one round of phase 1
  unfoldable pub ask : String → Ballot V → String → List (Operation V) → Option (Ballot V)
  ask tx_id b pid ops = do
    p ← Dict.get b.participants pid
    if p.available
        then (let (p', vote) = Participant.prepare p tx_id ops in
            some (record {
              participants = Dict.put b.participants pid p';
              votes = Dict.put b.votes pid (is_yes vote);
              reason = why vote b.reason;
            }))
        else some (record b { votes = Dict.put b.votes pid false; reason = some (timeout pid) })

  unfoldable pub ask_all : String → Ballot V → Dict String (List (Operation V)) → Option (Ballot V)
  unfolding ask
  ask_all tx_id b [] = some b
  ask_all tx_id b ((pid, ops) ∷ rest) = do b' ← ask tx_id b pid ops; ask_all tx_id b' rest

  -- the loops of phase 2: `decide` is `commit` or `abort`, for the participants that are up
  unfoldable pub tell :
      (Participant V → Participant V)
      → Dict String (Participant V)
      → String
      → Option (Dict String (Participant V))
  tell decide participants pid = do
    p ← Dict.get participants pid
    some (if p.available then Dict.put participants pid (decide p) else participants)

  unfoldable pub tell_all :
      (Participant V → Participant V)
      → Dict String (Participant V)
      → Dict String (List (Operation V))
      → Option (Dict String (Participant V))
  unfolding tell
  tell_all decide participants [] = some participants
  tell_all decide participants ((pid, ops) ∷ rest) = do
    participants' ← tell decide participants pid
    tell_all decide participants' rest

  -- phase 2, and the entries that it adds to the log
  unfoldable pub decide_all :
      Coordinator V
      → String
      → Dict String (List (Operation V))
      → Ballot V
      → Option (Coordinator V × Report)
  unfolding tell_all all_yes
  decide_all c tx_id operations b =
      if all_yes b.votes
      then (do
        participants ← tell_all (λ p. (Participant.commit p tx_id).0) b.participants operations
        some (
          record c {
            participants = participants;
            log = c.log ++ (tx_id, committing) ∷ (tx_id, committed) ∷ [];
          },
          record { tx_id = tx_id; outcome = committed_outcome; votes = b.votes; reason = none },
        ))
      else do
        participants ← tell_all (λ p. (Participant.abort p tx_id).0) b.participants operations
        some (
          record c {
            participants = participants;
            log = c.log ++ (tx_id, aborting) ∷ (tx_id, aborted) ∷ [];
          },
          record { tx_id = tx_id; outcome = aborted_outcome; votes = b.votes; reason = b.reason },
        )

  -- the body of `execute_transaction`, below the test that the coordinator is available
  unfoldable pub run_phases :
      Coordinator V → String → Dict String (List (Operation V)) → Option (Coordinator V × Report)
  run_phases c tx_id operations = do
    b ←
        ask_all tx_id (record { participants = c.participants; votes = []; reason = none })
          operations
    let log = c.log ++ (tx_id, preparing (map (λ e. e.0) operations)) ∷ (tx_id, voted b.votes) ∷ []
    decide_all (record c { log = log }) tx_id operations b

  unfoldable pub execute_transaction :
      Coordinator V → String → Dict String (List (Operation V)) → Option (Coordinator V × Report)
  execute_transaction c tx_id operations =
      if c.available
      then run_phases c tx_id operations
      else some (
        c,
        record {
          tx_id = tx_id;
          outcome = aborted_outcome;
          votes = [];
          reason = some coordinator_unavailable;
        },
      )

module _ {V : Type 0} (tx_name : ℕ → String) where
  unfoldable pub begin_transaction : Coordinator V → Coordinator V × String
  begin_transaction c =
      let tx_id = tx_name c.tx_counter in
      (record c { log = c.log ++ (tx_id, initiated) ∷ []; tx_counter = c.tx_counter + 1 }, tx_id)

  -- `TwoPhaseCommitSystem.execute`
  unfoldable pub execute :
      Coordinator V → Dict String (List (Operation V)) → Option (Coordinator V × Report)
  unfolding begin_transaction
  execute c operations =
      let (c', tx_id) = begin_transaction c in execute_transaction c' tx_id operations
