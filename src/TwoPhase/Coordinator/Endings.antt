-- ===== src/TwoPhase/Coordinator/Endings.antt =====
-- The entries that `Coordinator.recover` of two-phase-commit/two_phase_commit.py adds to its log.
use ddia_implementations.Prelude.{
  [], ◌∷◌, List, String, Option, some, none, ◌++◌, ◌≡◌, refl, arith, string_key, ap, ◌∙◌, inl, inr,
  Option-cases, if◌then◌else◌, ◌==◌,
}
use ddia_implementations.Dict
use ddia_implementations.Dict.{Dict, IsDistinct, put-IsDistinct, get-put}
use ddia_implementations.TwoPhase.Coordinator.{Stage, committing, committed, aborting, aborted}
use ddia_implementations.TwoPhase.Coordinator.Recovery.{latest_stage, stages}

-- the stage that ends a transaction whose decision stands in the log
abbrev pub ending : Stage → Option Stage
ending committing = some committed
ending aborting = some aborted
ending stage = none

abbrev pub settled : Option Stage → Option Stage
settled none = none
settled (some stage) = elim (ending stage) [ none ↦ some stage | some e ↦ some e ]

-- the entries that `recover` adds
abbrev pub endings : Dict String Stage → List (String × Stage)
endings [] = []
endings ((tx_id, stage) ∷ d) = elim (ending stage) [
  | none ↦ endings d
  | some e ↦ (tx_id, e) ∷ endings d
]

pub latest_stage-append :
    (found : Option Stage) (es fs : List (String × Stage)) (tx : String)
    → latest_stage found (es ++ fs) tx ≡ latest_stage (latest_stage found es tx) fs tx
unfolding latest_stage
latest_stage-append found [] fs tx = refl
latest_stage-append found (e ∷ es) fs tx =
    latest_stage-append (if e.0 == tx then some e.1 else found) es fs tx

pub get-stages :
    (d : Dict String Stage) (es : List (String × Stage)) (tx : String)
    → Dict.get (stages d es) tx ≡ latest_stage (Dict.get d tx) es tx
unfolding stages latest_stage
get-stages d [] tx = refl
get-stages d (e ∷ es) tx =
    get-stages (Dict.put d e.0 e.1) es tx
    ∙ ap (λ f. latest_stage f es tx) (ground (arith, get-put d e.0 e.1 tx))

pub stages-IsDistinct :
    (d : Dict String Stage) (es : List (String × Stage)) → IsDistinct d → IsDistinct (stages d es)
unfolding stages
stages-IsDistinct d [] h = h
stages-IsDistinct d (e ∷ es) h =
    stages-IsDistinct (Dict.put d e.0 e.1) es (put-IsDistinct d e.0 e.1 h)

pub latest_stage-endings-none :
    (d : Dict String Stage) (tx : String) (found : Option Stage)
    → Dict.get d tx ≡ none
    → latest_stage found (endings d) tx ≡ found
unfolding latest_stage Dict.get
latest_stage-endings-none [] tx found h = refl
latest_stage-endings-none ((k, stage) ∷ d) tx found h = elim (Option-cases (ending stage)) [
  | inl q ↦ ground (arith, latest_stage-endings-none d tx found)
  | inr (e, q) ↦ ground (arith, latest_stage-endings-none d tx found)
]

pub latest_stage-endings :
    (d : Dict String Stage) (tx : String) (stage : Stage)
    → IsDistinct d
    → Dict.get d tx ≡ some stage
    → latest_stage (some stage) (endings d) tx ≡ settled (some stage)
unfolding latest_stage Dict.get
latest_stage-endings [] tx stage h e = cc
latest_stage-endings ((k, s) ∷ d) tx stage h e = elim (Option-cases (ending s)) [
  | inl q ↦
      ground
        (arith, latest_stage-endings d tx stage h.1, latest_stage-endings-none d tx (some stage))
  | inr (f, q) ↦
      ground (arith, latest_stage-endings d tx stage h.1, latest_stage-endings-none d tx (some f))
]

pub endings-cons :
    (tx : String) (stage : Stage) (d : Dict String Stage)
    → endings ((tx, stage) ∷ []) ++ endings d ≡ endings ((tx, stage) ∷ d)
endings-cons tx stage d = elim (Option-cases (ending stage)) [
  | inl q ↦ ground arith
  | inr (e, q) ↦ ground arith
]
