-- ===== src/TwoPhase/Coordinator/Atomic.antt =====
-- A distributed transaction takes effect at all of its participants or at none.
use ddia_implementations.Prelude.{
  ◌≡◌, arith, [], ◌∷◌, inl, inr, String, Bool, List, true, some, Bool-cases, string_key, false,
  none, >>=-eq-some, sym, ◌∙◌, ◌≢◌, if◌then◌else◌, ◌&&◌, Option-cases, ap,
}
use ddia_implementations.Dict
use ddia_implementations.Dict.{Dict, IsDistinct, get-put, get-remove}
use ddia_implementations.TwoPhase.Participant
use ddia_implementations.TwoPhase.Participant.{
  Participant, Operation, prepare, commit, abort, yes_vote,
}
use ddia_implementations.TwoPhase.Participant.Keys.{
  has_key, get-lock_all, get-unlock_all, conflict-eq-none, get-give_up_self, get-give_up_other,
}
use ddia_implementations.TwoPhase.Coordinator.{
  Coordinator, Ballot, ask_all, tell_all, is_yes, execute_transaction, decide_all, Report, Outcome,
  committed_outcome, aborted_outcome, all_yes, run_phases,
}
use ddia_implementations.TwoPhase.Coordinator.Effect.{ask_all_self, tell_all_self}

all_yes-get :
    (votes : Dict String Bool) (pid : String) (v : Bool)
    → all_yes votes ≡ true
    → Dict.get votes pid ≡ some v
    → v ≡ true
unfolding all_yes Dict.get
all_yes-get [] pid v h e = cc
all_yes-get ((q, w) ∷ votes) pid v h e = ground (arith, all_yes-get votes pid v)

is_yes-true : (v : Participant.Vote) → is_yes v ≡ true → v ≡ yes_vote
is_yes-true v h = ground arith

abbrev pub is_committed : Outcome → Bool
is_committed committed_outcome = true
is_committed aborted_outcome = false

module _ {V : Type 0} where
  commit-prepare :
      (p : Participant V) (tx : String) (os : List (Operation V))
      → (prepare p tx os).1 ≡ yes_vote
      → (commit (prepare p tx os).0 tx).0.store ≡ Participant.apply_all p.store os
  unfolding commit prepare
  commit-prepare p tx os h = grind (arith, get-put)

  abort-prepare :
      (p : Participant V) (tx : String) (os : List (Operation V))
      → (abort (prepare p tx os).0 tx).0.store ≡ p.store
  unfolding abort prepare
  abort-prepare p tx os = ground arith

  -- What the transaction left at a participant: all of its operations after a yes vote, or nothing.
  abbrev pub Settled :
      String → Outcome → List (Operation V) → Participant V → Participant V → Type 0
  Settled tx committed_outcome os p p' =
      ((prepare p tx os).1 ≡ yes_vote) × (p'.store ≡ Participant.apply_all p.store os)
  Settled tx aborted_outcome os p p' = p'.store ≡ p.store

  abbrev settle : String → Outcome → List (Operation V) → Participant V → Participant V
  settle tx committed_outcome os p = (commit (prepare p tx os).0 tx).0
  settle tx aborted_outcome os p = (abort (prepare p tx os).0 tx).0

  -- phase 2 after unanimous votes
  decide_all-committed :
      (c : Coordinator V) (tx : String) (ops : Dict String (List (Operation V))) (b : Ballot V)
      (c' : Coordinator V) (r : Report)
      → all_yes b.votes ≡ true
      → decide_all c tx ops b ≡ some (c', r)
      → (tell_all (λ p. (commit p tx).0) b.participants ops ≡ some c'.participants)
        × (r.outcome ≡ committed_outcome)
  unfolding decide_all
  decide_all-committed c tx ops b c' r y h = ground arith

  -- phase 2 after a refusal
  decide_all-aborted :
      (c : Coordinator V) (tx : String) (ops : Dict String (List (Operation V))) (b : Ballot V)
      (c' : Coordinator V) (r : Report)
      → all_yes b.votes ≡ false
      → decide_all c tx ops b ≡ some (c', r)
      → (tell_all (λ p. (abort p tx).0) b.participants ops ≡ some c'.participants)
        × (r.outcome ≡ aborted_outcome)
  unfolding decide_all
  decide_all-aborted c tx ops b c' r y h = ground arith

  commit-down : (p : Participant V) (tx : String) → p.available ≡ false → (commit p tx).0 ≡ p
  unfolding commit
  commit-down p tx h = ground arith

  abort-down : (p : Participant V) (tx : String) → p.available ≡ false → (abort p tx).0 ≡ p
  unfolding abort
  abort-down p tx h = ground arith

  decide_all-settle :
      (c : Coordinator V) (tx : String) (ops : Dict String (List (Operation V))) (b : Ballot V)
      (c' : Coordinator V) (r : Report) (pid : String) (os : List (Operation V)) (p : Participant V)
      → IsDistinct ops
      → Dict.get ops pid ≡ some os
      → Dict.get b.participants pid ≡ some (prepare p tx os).0
      → Dict.get b.votes pid ≡ some (is_yes (prepare p tx os).1)
      → decide_all c tx ops b ≡ some (c', r)
      → (Dict.get c'.participants pid ≡ some (settle tx r.outcome os p))
        × Settled tx r.outcome os p (settle tx r.outcome os p)
  decide_all-settle c tx ops b c' r pid os p d e at vote h = elim (Bool-cases (all_yes b.votes)) [
    | inl y ↦
        let (told, out) = decide_all-committed c tx ops b c' r y h in
        let agreed = is_yes-true _ (all_yes-get b.votes pid _ y vote) in
        rw out (
          tell_all_self tx pid (λ q. (commit q tx).0) ops b.participants c'.participants os
              (prepare p tx os).0 (commit-down (prepare p tx os).0 tx) d e at told,
          (agreed, commit-prepare p tx os agreed),
        )
    | inr n ↦
        let (told, out) = decide_all-aborted c tx ops b c' r n h in
        rw out (
          tell_all_self tx pid (λ q. (abort q tx).0) ops b.participants c'.participants os
              (prepare p tx os).0 (abort-down (prepare p tx os).0 tx) d e at told,
          abort-prepare p tx os,
        )
  ]

  execute_transaction-run_phases :
      (c : Coordinator V) (tx : String) (ops : Dict String (List (Operation V)))
      → c.available ≡ true
      → execute_transaction c tx ops ≡ run_phases c tx ops
  unfolding execute_transaction
  execute_transaction-run_phases c tx ops up = rw up

  execute_transaction-phases :
      (c : Coordinator V) (tx : String) (ops : Dict String (List (Operation V)))
      (c' : Coordinator V) (r : Report)
      → execute_transaction c tx ops ≡ some (c', r)
      → c.available ≡ true
      → (b : Ballot V) × (c1 : Coordinator V) × (ask_all tx
            (record { participants = c.participants; votes = []; reason = none })
            ops
          ≡ some b)
        × (decide_all c1 tx ops b ≡ some (c', r))
  unfolding run_phases
  execute_transaction-phases c tx ops c' r h up =
      let (b, asked, rest) =
        >>=-eq-some
          (ask_all tx (record { participants = c.participants; votes = []; reason = none }) ops) _
          (sym (execute_transaction-run_phases c tx ops up) ∙ h) in
      (b, _, asked, rest)

  execute_transaction-settle :
      (c : Coordinator V) (tx : String) (ops : Dict String (List (Operation V)))
      (c' : Coordinator V) (r : Report)
      → IsDistinct ops
      → execute_transaction c tx ops ≡ some (c', r)
      → c.available ≡ true
      → (pid : String) (os : List (Operation V)) (p : Participant V) → Dict.get ops pid ≡ some os
      → Dict.get c.participants pid ≡ some p
      → (Dict.get c'.participants pid ≡ some (settle tx r.outcome os p))
        × Settled tx r.outcome os p (settle tx r.outcome os p)
  execute_transaction-settle c tx ops c' r d h up pid os p e here =
      let (b, c1, asked, decided) = execute_transaction-phases c tx ops c' r h up in
      let (at, vote) =
        ask_all_self tx pid ops
          (record { participants = c.participants; votes = []; reason = none }) b os p d e here
          asked in
      decide_all-settle c1 tx ops b c' r pid os p d e at vote decided

  -- The transaction of an available coordinator is atomic: at each participant that it names, with
  -- the operations `os` for it, if the outcome is "committed" then the participant voted yes and its
  -- store is what all of `os` make of the old store, and if the outcome is "aborted" its store is
  -- unchanged.
  pub execute_transaction-atomic :
      (c : Coordinator V) (tx : String) (ops : Dict String (List (Operation V)))
      (c' : Coordinator V) (r : Report)
      → IsDistinct ops
      → execute_transaction c tx ops ≡ some (c', r)
      → c.available ≡ true
      → (pid : String) (os : List (Operation V)) (p : Participant V) → Dict.get ops pid ≡ some os
      → Dict.get c.participants pid ≡ some p
      → (p' : Participant V) × (Dict.get c'.participants pid ≡ some p')
        × Settled tx r.outcome os p p'
  execute_transaction-atomic c tx ops c' r d h up pid os p e here =
      let (at, settled) = execute_transaction-settle c tx ops c' r d h up pid os p e here in
      (settle tx r.outcome os p, at, settled)

  commit_unlocks :
      (p : Participant V) (tx : String) (os : List (Operation V)) (k : String)
      → (prepare p tx os).1 ≡ yes_vote
      → Dict.get (commit (prepare p tx os).0 tx).0.locks k
        ≡ (if has_key k os then none else Dict.get p.locks k)
  unfolding commit prepare
  commit_unlocks p tx os k h = grind (
    arith,
    get-put,
    get-unlock_all os (Participant.lock_all p.locks tx os) k,
    get-lock_all os p.locks tx k,
  )

  conflict-free :
      (os : List (Operation V)) (locks : Dict String String) (tx k : String)
      → Participant.conflict locks tx os ≡ none
      → has_key k os ≡ true
      → Dict.get locks k ≢ some tx
      → Dict.get locks k ≡ none
  conflict-free os locks tx k h e free = elim (Option-cases (Dict.get locks k)) [
    | inl x ↦ x
    | inr (holder, x) ↦ absurd (free (x ∙ ap some (conflict-eq-none os locks tx k holder h e x)))
  ]

  abort_unlocks :
      (p : Participant V) (tx : String) (os : List (Operation V)) (k : String)
      → Dict.get p.pending tx ≡ none
      → Dict.get p.locks k ≢ some tx
      → Dict.get (abort (prepare p tx os).0 tx).0.locks k ≡ Dict.get p.locks k
  unfolding abort prepare
  abort_unlocks p tx os k fresh free =
      let locks' = Participant.lock_all p.locks tx os in
      grind (
        arith,
        get-put,
        get-lock_all os p.locks tx k,
        get-give_up_self os locks' tx k,
        get-give_up_other os locks' tx k,
        conflict-free os p.locks tx k,
      )

  -- A transaction leaves no lock behind: at each participant that it names and that knew nothing of it
  -- before, after a commit the keys of its operations are free and after an abort they are locked or
  -- free as before the transaction; at every other key the lock is as before.
  pub execute_transaction-unlocks :
      (c : Coordinator V) (tx : String) (ops : Dict String (List (Operation V)))
      (c' : Coordinator V) (r : Report)
      → IsDistinct ops
      → execute_transaction c tx ops ≡ some (c', r)
      → c.available ≡ true
      → (pid : String) (os : List (Operation V)) (p : Participant V) (k : String)
      → Dict.get ops pid ≡ some os
      → Dict.get c.participants pid ≡ some p
      → Dict.get p.pending tx ≡ none
      → Dict.get p.locks k ≢ some tx
      → (p' : Participant V) × (Dict.get c'.participants pid ≡ some p')
        × (Dict.get p'.locks k
            ≡ (if is_committed r.outcome && has_key k os then none else Dict.get p.locks k))
  execute_transaction-unlocks c tx ops c' r d h up pid os p k e here fresh free =
      let (at, settled) = execute_transaction-settle c tx ops c' r d h up pid os p e here in
      (settle tx r.outcome os p, at, go r.outcome settled)
    where
      go :
          (out : Outcome)
          → Settled tx out os p (settle tx out os p)
          → Dict.get (settle tx out os p).locks k
            ≡ (if is_committed out && has_key k os then none else Dict.get p.locks k)
      go committed_outcome s = commit_unlocks p tx os k s.0
      go aborted_outcome s = abort_unlocks p tx os k fresh free
