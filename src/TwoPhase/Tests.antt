-- ===== src/TwoPhase/Tests.antt =====
-- The theorems on two-phase commit at concrete inputs: two participants, numbers as values.
use ddia_implementations.Dict
use ddia_implementations.TwoPhase.Participant.Prepared.{
  serve, IsValid, Request, serve_all, prepare_request, prepared_isolated, availability,
  abort_request,
}
use ddia_implementations.TwoPhase.Participant.Keys.{has_key}
use ddia_implementations.TwoPhase.Coordinator.Atomic.{
  Settled, is_committed, execute_transaction-atomic, execute_transaction-unlocks,
}
use ddia_implementations.Dict.{Dict, IsDistinct}
use ddia_implementations.TwoPhase.Coordinator.{
  Coordinator, execute_transaction, Report, aborted_outcome, ask_all, tell_all, decide_all,
  run_phases,
}
use ddia_implementations.TwoPhase.Participant.{
  prepare, Participant, commit, Operation, abort, set_op, set_available, delete_op,
}
use ddia_implementations.Prelude.{
  ℕ, String, ◌≡◌, List, ◌∷◌, some, [], get_or, if◌then◌else◌, none, true, ◌&&◌, string_ne, false,
  string_dec, refl, string_key, ◌>>=◌,
}
use ddia_implementations.TwoPhase.Participant
use ddia_implementations.TwoPhase.Coordinator.Recovery
use ddia_implementations.TwoPhase.Coordinator.Recovery.{
  Recovery, recover, latest_stage, stages, prepared_pids, resend, resend_all, finish, recover_one,
  recover_all,
}
use ddia_implementations.TwoPhase.Coordinator.Resolved.{recover-settled}
use ddia_implementations.TwoPhase.Coordinator

runs : Unit {0}
unfolding Participant.init prepare commit abort set_available serve serve_all has_key ask_all
    tell_all decide_all run_phases execute_transaction Coordinator.init Dict.get Dict.put
    Dict.remove string_dec latest_stage stages prepared_pids resend resend_all finish recover_one
    recover_all recover Recovery.get_transaction_state Participant.get_transaction_state
    Participant.latest
runs = tt

abbrev shop : Coordinator ℕ
shop = Coordinator.init ("stock" ∷ "bill" ∷ [])

abbrev order : Dict String (List (Operation ℕ))
order = ("stock", set_op "item" 4 ∷ []) ∷ ("bill", set_op "total" 9 ∷ delete_op "draft" ∷ []) ∷ []

abbrev nothing_done : Coordinator ℕ × Report
nothing_done = (shop, record { tx_id = ""; outcome = aborted_outcome; votes = []; reason = none })

abbrev done : Coordinator ℕ × Report
done = get_or (execute_transaction shop "tx-001" order) nothing_done

done-lem : execute_transaction shop "tx-001" order ≡ some (done.0, done.1)
unfolding runs
done-lem = refl

order-IsDistinct : IsDistinct order
unfolding runs
order-IsDistinct = (refl, (refl, tt))

execute_transaction-atomic_example :
    (p' : Participant ℕ) × (Dict.get done.0.participants "bill" ≡ some p')
    × Settled "tx-001" done.1.outcome
        (set_op "total" 9 ∷ delete_op "draft" ∷ [])
        (Participant.init "bill")
        p'
unfolding runs
execute_transaction-atomic_example =
    execute_transaction-atomic shop "tx-001" order done.0 done.1 order-IsDistinct done-lem refl
      "bill" (set_op "total" 9 ∷ delete_op "draft" ∷ []) (Participant.init "bill") refl refl

execute_transaction-unlocks_example :
    (p' : Participant ℕ) × (Dict.get done.0.participants "stock" ≡ some p')
    × (Dict.get p'.locks "item" ≡ (
        if is_committed done.1.outcome && has_key {V = ℕ} "item" (set_op "item" 4 ∷ [])
        then none
        else Dict.get (Participant.init {V = ℕ} "stock").locks "item"))
unfolding runs
execute_transaction-unlocks_example =
    execute_transaction-unlocks shop "tx-001" order done.0 done.1 order-IsDistinct done-lem refl
      "stock" (set_op "item" 4 ∷ []) (Participant.init "stock") "item" refl refl refl (λ e. cc)

abbrev idle : Participant ℕ
idle = record {
  participant_id = "bill";
  store = ("total", 5) ∷ [];
  log = [];
  locks = [];
  available = true;
  pending = [];
}

idle-IsValid : IsValid idle
idle-IsValid = record { locked = λ t ops k e h. cc (e, Dict.get-empty {V = List (Operation ℕ)} t) }

-- another transaction tries the same key, and fails; then the participant is down for a while
abbrev others : List (Request ℕ)
others =
    prepare_request "tx-002" (set_op "total" 7 ∷ [])
    ∷ availability false
    ∷ abort_request "tx-002"
    ∷ []

prepared_isolated_example :
    let p' = serve_all (prepare idle "tx-001" (set_op "total" 9 ∷ [])).0 others in
    (Dict.get p'.locks "total" ≡ some "tx-001")
    × (Dict.get (commit (set_available p' true) "tx-001").0.store "total"
        ≡ Dict.get (Participant.apply_all idle.store (set_op "total" 9 ∷ [])) "total")
unfolding runs
prepared_isolated_example =
    prepared_isolated idle "tx-001" (set_op "total" 9 ∷ []) others idle-IsValid refl
      (string_ne "tx-002" "tx-001" refl, (tt, (string_ne "tx-002" "tx-001" refl, tt))) "total" refl

-- the coordinator stops between its decision and the messages
abbrev asked : Coordinator.Ballot ℕ
asked = record { participants = shop.participants; votes = []; reason = none }

abbrev crashed : Coordinator ℕ
crashed = record shop {
  participants = (get_or (ask_all "tx-001" asked order) asked).participants;
  log =
      ("tx-001", Coordinator.preparing ("stock" ∷ "bill" ∷ []))
      ∷ ("tx-001", Coordinator.voted (("stock", true) ∷ ("bill", true) ∷ []))
      ∷ ("tx-001", Coordinator.committing)
      ∷ [];
}

resent_run : (recover crashed >>= (λ r. some r.1.decisions_resent)) ≡ some 2
unfolding runs
resent_run = refl

recover-settled_example :
    (c' : Coordinator ℕ) × (report : Recovery ℕ) × (recover crashed ≡ some (c', report))
    × (Recovery.get_transaction_state c' "tx-001" ≡ some Coordinator.committed)
unfolding runs
recover-settled_example =
    recover-settled crashed "tx-001" (((λ e. cc), ((λ e. cc), tt)), (tt, (tt, tt)))
