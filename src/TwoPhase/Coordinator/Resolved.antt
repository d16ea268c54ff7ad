-- ===== src/TwoPhase/Coordinator/Resolved.antt =====
-- What `Coordinator.recover` of two-phase-commit/two_phase_commit.py leaves of each transaction.
use ddia_implementations.TwoPhase.Coordinator.Endings.{
  endings, settled, endings-cons, get-stages, latest_stage-append, latest_stage-endings-none,
  latest_stage-endings, stages-IsDistinct,
}
use ddia_implementations.Prelude.{
  ◌>>=◌, [], ◌∷◌, List, String, Option, some, none, ◌++◌, ◌≡◌, ◌≢◌, refl, arith, string_key, All,
  ap, ◌∙◌, inl, inr, Option-cases, subst, sym, append-nil, append_assoc, Bool-cases, ◌&&◌, ◌+◌,
}
use ddia_implementations.Dict
use ddia_implementations.Dict.{Dict, IsDistinct, put-IsDistinct, get-put}
use ddia_implementations.TwoPhase.Participant
use ddia_implementations.TwoPhase.Participant.{Participant}
use ddia_implementations.TwoPhase.Coordinator.{
  Coordinator, Stage, preparing, committing, committed, aborting, aborted, voted, initiated,
}
use ddia_implementations.TwoPhase.Coordinator.Recovery.{
  Recovery, latest_stage, stages, prepared_pids, pids_of, get_transaction_state, resend, resend_all,
  finish, recover_one, recover_all, recover, is_prepared,
}

module _ {V : Type 0} where
  -- these participants are there
  abbrev pub Knows : Dict String (Participant V) → List String → Type 0
  Knows ps pids = All (λ pid. Dict.get ps pid ≢ none) pids

  abbrev Keeps : Dict String (Participant V) → Dict String (Participant V) → Type 0
  Keeps ps ps' = (pid : String) → Dict.get ps pid ≢ none → Dict.get ps' pid ≢ none

  Knows-Keeps :
      (ps ps' : Dict String (Participant V)) (pids : List String)
      → Keeps ps ps'
      → Knows ps pids
      → Knows ps' pids
  Knows-Keeps ps ps' [] k h = tt
  Knows-Keeps ps ps' (pid ∷ pids) k h = (k pid h.0, Knows-Keeps ps ps' pids k h.1)

  -- a step of `recover` that succeeds and adds `es` to the log
  record Adds (s : Recovery V) (step : Option (Recovery V)) (es : List (String × Stage))
      : Type 0 where
    next : Recovery V
    runs : step ≡ some next
    adds : next.log ≡ s.log ++ es
    keeps : Keeps s.participants next.participants

  Adds-same : (s : Recovery V) → Adds s (some s) []
  Adds-same s = record { next = s; runs = refl; adds = sym (append-nil s.log); keeps = λ pid h. h }

  Adds-bind :
      (s : Recovery V) (m : Option (Recovery V)) (f : Recovery V → Option (Recovery V))
      (es fs : List (String × Stage))
      → (a : Adds s m es) → Adds a.next (f a.next) fs
      → Adds s (m >>= f) (es ++ fs)
  Adds-bind s m f es fs a b = record {
    next = b.next;
    runs = ap (λ t. t >>= f) a.runs ∙ b.runs;
    adds = b.adds ∙ ap (λ l. l ++ fs) a.adds ∙ append_assoc s.log es fs;
    keeps = λ pid h. b.keeps pid (a.keeps pid h);
  }

  put-Keeps :
      (ps : Dict String (Participant V)) (pid : String) (p : Participant V)
      → Keeps ps (Dict.put ps pid p)
  put-Keeps ps pid p q h e = h (ground (arith, get-put ps pid p q))

  resend-Adds :
      (decide : Participant V → Participant V) (tx : String) (s : Recovery V) (pid : String)
      → Dict.get s.participants pid ≢ none
      → Adds s (resend decide tx s pid) []
  unfolding resend
  resend-Adds decide tx s pid h = elim (Option-cases (Dict.get s.participants pid)) [
    | inl q ↦ absurd (h q)
    | inr (p, q) ↦
        elim (Bool-cases (p.available && is_prepared (Participant.get_transaction_state p tx))) [
          | inl b ↦ record {
            next = record s {
              participants = Dict.put s.participants pid (decide p);
              decisions_resent = s.decisions_resent + 1;
            };
            runs = ground arith;
            adds = sym (append-nil s.log);
            keeps = put-Keeps s.participants pid (decide p);
          }
          | inr b ↦ record {
            next = s;
            runs = ground arith;
            adds = sym (append-nil s.log);
            keeps = λ q h'. h';
          }
        ]
  ]

  resend_all-Adds :
      (decide : Participant V → Participant V) (tx : String) (s : Recovery V) (pids : List String)
      → Knows s.participants pids
      → Adds s (resend_all decide tx s pids) []
  unfolding resend_all
  resend_all-Adds decide tx s [] h = Adds-same s
  resend_all-Adds decide tx s (pid ∷ pids) h =
      let first = resend-Adds decide tx s pid h.0 in
      Adds-bind s (resend decide tx s pid) (λ s'. resend_all decide tx s' pids) [] [] first
        (resend_all-Adds decide tx first.next pids
          (Knows-Keeps s.participants first.next.participants pids first.keeps h.1))

  finish-Adds :
      (decide : Participant V → Participant V) (stage : Stage) (tx : String) (pids : List String)
      (s : Recovery V)
      → Knows s.participants pids
      → Adds s (finish decide stage tx pids s) ((tx, stage) ∷ [])
  unfolding finish
  finish-Adds decide stage tx pids s h =
      let told = resend_all-Adds decide tx s pids h in
      Adds-bind s (resend_all decide tx s pids) _ [] ((tx, stage) ∷ []) told
        (record { next = _; runs = refl; adds = refl; keeps = λ q h'. h' })

  recover_one-Adds :
      (tx : String) (stage : Stage) (pids : List String) (s : Recovery V)
      → Knows s.participants pids
      → Adds s (recover_one tx stage pids s) (endings ((tx, stage) ∷ []))
  unfolding recover_one
  recover_one-Adds tx initiated pids s h = Adds-same s
  recover_one-Adds tx (preparing ps) pids s h = Adds-same s
  recover_one-Adds tx (voted vs) pids s h = Adds-same s
  recover_one-Adds tx committing pids s h =
      finish-Adds (λ p. (Participant.commit p tx).0) committed tx pids s h
  recover_one-Adds tx committed pids s h = Adds-same s
  recover_one-Adds tx aborting pids s h =
      finish-Adds (λ p. (Participant.abort p tx).0) aborted tx pids s h
  recover_one-Adds tx aborted pids s h = Adds-same s

  recover_all-Adds :
      (known : Dict String (List String)) (d : Dict String Stage) (s : Recovery V)
      → ((tx : String) → Knows s.participants (pids_of (Dict.get known tx)))
      → Adds s (recover_all known d s) (endings d)
  unfolding recover_all
  recover_all-Adds known [] s k = Adds-same s
  recover_all-Adds known ((tx, stage) ∷ d) s k =
      let first = recover_one-Adds tx stage (pids_of (Dict.get known tx)) s (k tx) in
      subst (Adds s _) (endings-cons tx stage d) (
        Adds-bind s (recover_one tx stage (pids_of (Dict.get known tx)) s)
          (λ s'. recover_all known d s') (endings ((tx, stage) ∷ [])) (endings d) first
          (recover_all-Adds known d first.next (λ t.
            Knows-Keeps s.participants first.next.participants (pids_of (Dict.get known t))
              first.keeps (k t))))

  -- the participants that the log's PREPAREs name
  abbrev pub KnowsStage : Dict String (Participant V) → Stage → Type 0
  KnowsStage ps (preparing pids) = Knows ps pids
  KnowsStage ps stage = Unit

  prepared_pids-Knows :
      (ps : Dict String (Participant V)) (d : Dict String (List String))
      (es : List (String × Stage)) (tx : String)
      → Knows ps (pids_of (Dict.get d tx))
      → All (λ e. KnowsStage ps e.1) es
      → Knows ps (pids_of (Dict.get (prepared_pids d es) tx))
  unfolding prepared_pids
  prepared_pids-Knows ps d [] tx k h = k
  prepared_pids-Knows ps d ((t, preparing pids) ∷ es) tx k h =
      prepared_pids-Knows ps (Dict.put d t pids) es tx
        (elim (string_key.dec t tx) [
          | yes q ↦
              let same : some pids ≡ Dict.get (Dict.put d t pids) tx =
                ground (arith, get-put d t pids tx) in
              subst (λ o. Knows ps (pids_of o)) same h.0
          | no q ↦
              let same : Dict.get d tx ≡ Dict.get (Dict.put d t pids) tx =
                ground (arith, get-put d t pids tx) in
              subst (λ o. Knows ps (pids_of o)) same k
        ])
        h.1
  prepared_pids-Knows ps d ((t, initiated) ∷ es) tx k h = prepared_pids-Knows ps d es tx k h.1
  prepared_pids-Knows ps d ((t, voted v) ∷ es) tx k h = prepared_pids-Knows ps d es tx k h.1
  prepared_pids-Knows ps d ((t, committing) ∷ es) tx k h = prepared_pids-Knows ps d es tx k h.1
  prepared_pids-Knows ps d ((t, committed) ∷ es) tx k h = prepared_pids-Knows ps d es tx k h.1
  prepared_pids-Knows ps d ((t, aborting) ∷ es) tx k h = prepared_pids-Knows ps d es tx k h.1
  prepared_pids-Knows ps d ((t, aborted) ∷ es) tx k h = prepared_pids-Knows ps d es tx k h.1

  pub recover-settled :
      (c : Coordinator V) (tx : String)
      → All (λ e. KnowsStage c.participants e.1) c.log
      → (c' : Coordinator V) × (report : Recovery V) × (recover c ≡ some (c', report))
        × (get_transaction_state c' tx ≡ settled (get_transaction_state c tx))
  unfolding recover get_transaction_state Dict.get
  recover-settled c tx k =
      let started : Recovery V = record {
        participants = c.participants;
        log = c.log;
        recovered_transactions = [];
        decisions_resent = 0;
      } in
      let done =
        recover_all-Adds (prepared_pids [] c.log) (stages [] c.log) started
          (λ t. prepared_pids-Knows c.participants [] c.log t tt k) in
      let stage = get-stages [] c.log tx in
      (
        record c { participants = done.next.participants; log = done.next.log },
        done.next,
        ap (λ m. m >>= (λ s. some (record c { participants = s.participants; log = s.log }, s)))
            done.runs,
        ap (λ l. latest_stage none l tx) done.adds
            ∙ latest_stage-append none c.log (endings (stages [] c.log)) tx
            ∙ elim (Option-cases (latest_stage none c.log tx)) [
              | inl q ↦ ground (arith, latest_stage-endings-none (stages [] c.log) tx none)
              | inr (s, q) ↦ ground (
                arith,
                latest_stage-endings (stages [] c.log) tx s (stages-IsDistinct [] c.log tt),
              )
            ],
      )
