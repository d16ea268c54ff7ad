-- ===== src/TwoPhase/Coordinator/Effect.antt =====
-- What each phase of the coordinator does to one participant.
use ddia_implementations.Prelude.{
  ◌≡◌, arith, [], ◌∷◌, inl, inr, String, List, ◌≢◌, some, none, string_key, >>=-eq-some, false, ◌∙◌,
}
use ddia_implementations.Dict
use ddia_implementations.Dict.{Dict, IsDistinct, get-put, get-cons_none, get-cons_some}
use ddia_implementations.TwoPhase.Participant.{Participant, Operation, prepare}
use ddia_implementations.TwoPhase.Coordinator.{Ballot, ask, ask_all, tell, tell_all, is_yes}

module _ {V : Type 0} (tx pid : String) where
  ask_other :
      (b : Ballot V) (q : String) (os : List (Operation V)) (b' : Ballot V)
      → q ≢ pid
      → ask tx b q os ≡ some b'
      → (Dict.get b'.participants pid ≡ Dict.get b.participants pid)
        × (Dict.get b'.votes pid ≡ Dict.get b.votes pid)
  unfolding ask
  ask_other b q os b' ne h = grind (arith, get-put)

  ask_self :
      (b : Ballot V) (os : List (Operation V)) (p : Participant V) (b' : Ballot V)
      → Dict.get b.participants pid ≡ some p
      → ask tx b pid os ≡ some b'
      → (Dict.get b'.participants pid ≡ some (prepare p tx os).0)
        × (Dict.get b'.votes pid ≡ some (is_yes (prepare p tx os).1))
  unfolding ask prepare
  ask_self b os p b' e h = grind (arith, get-put)

  pub ask_all_other :
      (ops : Dict String (List (Operation V))) (b b' : Ballot V)
      → Dict.get ops pid ≡ none
      → ask_all tx b ops ≡ some b'
      → (Dict.get b'.participants pid ≡ Dict.get b.participants pid)
        × (Dict.get b'.votes pid ≡ Dict.get b.votes pid)
  unfolding ask_all
  ask_all_other [] b b' e h = ground arith
  ask_all_other ((q, os) ∷ ops) b b' e h =
      let (ne, e') = get-cons_none q os ops pid e in
      let (b1, one, rest) = >>=-eq-some (ask tx b q os) (λ x. ask_all tx x ops) h in
      let (p1, v1) = ask_other b q os b1 ne one in
      let (p2, v2) = ask_all_other ops b1 b' e' rest in (p2 ∙ p1, v2 ∙ v1)

  -- After phase 1 a participant of the transaction is as `prepare` left it, and its vote is recorded.
  pub ask_all_self :
      (ops : Dict String (List (Operation V))) (b b' : Ballot V) (os : List (Operation V))
      (p : Participant V)
      → IsDistinct ops
      → Dict.get ops pid ≡ some os
      → Dict.get b.participants pid ≡ some p
      → ask_all tx b ops ≡ some b'
      → (Dict.get b'.participants pid ≡ some (prepare p tx os).0)
        × (Dict.get b'.votes pid ≡ some (is_yes (prepare p tx os).1))
  unfolding ask_all
  ask_all_self [] b b' os p d e here h = cc (e, Dict.get-empty {V = List (Operation V)} pid)
  ask_all_self ((q, us) ∷ ops) b b' os p d e here h =
      let (b1, one, rest) = >>=-eq-some (ask tx b q us) (λ x. ask_all tx x ops) h in
      elim (get-cons_some q us ops pid os e) [
        | inl (same, own) ↦
            let (p1, v1) = ask_self b os p b1 here (rw (← same, ← own) one) in
            let (p2, v2) = ask_all_other ops b1 b' (rw (← same) d.0) rest in (p2 ∙ p1, v2 ∙ v1)
        | inr (ne, later) ↦
            let (p1, v1) = ask_other b q us b1 ne one in
            ask_all_self ops b1 b' os p d.1 later (p1 ∙ here) rest
      ]

  module _ (decide : Participant V → Participant V) where
    tell_other :
        (ps : Dict String (Participant V)) (q : String) (ps' : Dict String (Participant V))
        → q ≢ pid
        → tell decide ps q ≡ some ps'
        → Dict.get ps' pid ≡ Dict.get ps pid
    unfolding tell
    tell_other ps q ps' ne h = grind (arith, get-put)

    pub tell_all_other :
        (ops : Dict String (List (Operation V))) (ps ps' : Dict String (Participant V))
        → Dict.get ops pid ≡ none
        → tell_all decide ps ops ≡ some ps'
        → Dict.get ps' pid ≡ Dict.get ps pid
    unfolding tell_all
    tell_all_other [] ps ps' e h = ground arith
    tell_all_other ((q, os) ∷ ops) ps ps' e h =
        let (ne, e') = get-cons_none q os ops pid e in
        let (ps1, one, rest) = >>=-eq-some (tell decide ps q) (λ x. tell_all decide x ops) h in
        tell_all_other ops ps1 ps' e' rest ∙ tell_other ps q ps1 ne one

    tell_self :
        (ps : Dict String (Participant V)) (p : Participant V) (ps' : Dict String (Participant V))
        → (p.available ≡ false → decide p ≡ p)
        → Dict.get ps pid ≡ some p
        → tell decide ps pid ≡ some ps'
        → Dict.get ps' pid ≡ some (decide p)
    unfolding tell
    tell_self ps p ps' down e h = grind (arith, get-put)

    -- After phase 2 a participant of the transaction is as the decision left it.
    pub tell_all_self :
        (ops : Dict String (List (Operation V))) (ps ps' : Dict String (Participant V))
        (os : List (Operation V)) (p : Participant V)
        → (p.available ≡ false → decide p ≡ p)
        → IsDistinct ops
        → Dict.get ops pid ≡ some os
        → Dict.get ps pid ≡ some p
        → tell_all decide ps ops ≡ some ps'
        → Dict.get ps' pid ≡ some (decide p)
    unfolding tell_all
    tell_all_self [] ps ps' os p down d e here h =
        cc (e, Dict.get-empty {V = List (Operation V)} pid)
    tell_all_self ((q, us) ∷ ops) ps ps' os p down d e here h =
        let (ps1, one, rest) = >>=-eq-some (tell decide ps q) (λ x. tell_all decide x ops) h in
        elim (get-cons_some q us ops pid os e) [
          | inl (same, own) ↦
              tell_all_other ops ps1 ps' (rw (← same) d.0) rest
              ∙ tell_self ps p ps1 down here (rw (← same) one)
          | inr (ne, later) ↦
              tell_all_self ops ps1 ps' os p down d.1 later (tell_other ps q ps1 ne one ∙ here) rest
        ]
