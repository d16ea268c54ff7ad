-- ===== src/TwoPhase/Participant/Prepared.antt =====
-- From its vote to the decision, a transaction has its keys for itself.
use ddia_implementations.Prelude.{
  ◌≡◌, arith, [], ◌∷◌, String, List, Bool, some, true, string_key, ◌≢◌, ◌∙◌, All,
}
use ddia_implementations.Dict
use ddia_implementations.Dict.{get-put, get-remove, Dict}
use ddia_implementations.TwoPhase.Participant.{
  Participant, Operation, prepare, commit, abort, set_available, init, or_empty, yes_vote,
  apply_all,
}
use ddia_implementations.TwoPhase.Participant.Keys.{
  has_key, get-lock_all, get-give_up_other, conflict-eq-none, get-unlock_all, get-apply_all_other,
  get-apply_all_same,
}

-- What reaches a participant.
pub data Request (V : Type 0) : Type 0 where
  prepare_request : String → List (Operation V) → Request V
  commit_request : String → Request V
  abort_request : String → Request V
  availability : Bool → Request V

module _ {V : Type 0} where
  unfoldable pub serve : Participant V → Request V → Participant V
  serve p (prepare_request t ops) = (prepare p t ops).0
  serve p (commit_request t) = (commit p t).0
  serve p (abort_request t) = (abort p t).0
  serve p (availability b) = set_available p b

  unfoldable pub serve_all : Participant V → List (Request V) → Participant V
  serve_all p [] = p
  serve_all p (r ∷ rs) = serve_all (serve p r) rs

  -- Every key of a pending transaction is locked by it.
  pub record IsValid (p : Participant V) : Type 0 where
    pub locked :
        (t : String) (ops : List (Operation V)) (k : String)
        → Dict.get p.pending t ≡ some ops
        → has_key k ops ≡ true
        → Dict.get p.locks k ≡ some t

  prepare-IsValid :
      (p : Participant V) (t : String) (ops : List (Operation V))
      → IsValid p
      → IsValid (prepare p t ops).0
  unfolding prepare
  prepare-IsValid p t ops v = record {
    locked = λ u us k e h. ground (
      arith,
      v.locked u us k,
      get-put p.pending t ops u,
      get-lock_all ops p.locks t k,
      conflict-eq-none ops p.locks t k u,
    );
  }

  commit-IsValid : (p : Participant V) (t : String) → IsValid p → IsValid (commit p t).0
  unfolding commit has_key
  commit-IsValid p t v = record {
    locked = λ u us k e h. ground (
      arith,
      v.locked u us k,
      v.locked t (or_empty (Dict.get p.pending t)) k,
      get-remove p.pending t u,
      get-unlock_all (or_empty (Dict.get p.pending t)) p.locks k,
    );
  }

  abort-IsValid : (p : Participant V) (t : String) → IsValid p → IsValid (abort p t).0
  unfolding abort
  abort-IsValid p t v = record {
    locked = λ u us k e h. ground (
      arith,
      v.locked u us k,
      get-remove p.pending t u,
      get-give_up_other (or_empty (Dict.get p.pending t)) p.locks t k,
    );
  }

  pub serve-IsValid : (p : Participant V) (r : Request V) → IsValid p → IsValid (serve p r)
  unfolding serve set_available
  serve-IsValid p (prepare_request t ops) v = prepare-IsValid p t ops v
  serve-IsValid p (commit_request t) v = commit-IsValid p t v
  serve-IsValid p (abort_request t) v = abort-IsValid p t v
  serve-IsValid p (availability b) v = record { locked = v.locked }

  pub init-IsValid : (name : String) → IsValid (init {V = V} name)
  unfolding init
  init-IsValid name = record {
    locked = λ t ops k e h. cc (Dict.get-empty {V = List (Operation V)} t);
  }

  -- a request that is not part of transaction `t`
  abbrev pub IsOther : String → Request V → Type 0
  IsOther t (prepare_request u ops) = u ≢ t
  IsOther t (commit_request u) = u ≢ t
  IsOther t (abort_request u) = u ≢ t
  IsOther t (availability b) = Unit

  -- Transaction `t` is prepared with `ops`, and its keys hold what they hold in `store`.
  pub record Reserved (store : Dict String V) (t : String) (ops : List (Operation V))
      (p : Participant V) : Type 0 where
    pub valid : IsValid p
    pub stands : Dict.get p.pending t ≡ some ops
    pub same : (k : String) → has_key k ops ≡ true → Dict.get p.store k ≡ Dict.get store k

  commit-same :
      (p : Participant V) (t u : String) (ops : List (Operation V)) (k : String)
      → IsValid p
      → Dict.get p.pending t ≡ some ops
      → u ≢ t
      → has_key k ops ≡ true
      → Dict.get (commit p u).0.store k ≡ Dict.get p.store k
  unfolding commit has_key
  commit-same p t u ops k v stands ne h = ground (
    arith,
    v.locked t ops k,
    v.locked u (or_empty (Dict.get p.pending u)) k,
    get-apply_all_other (or_empty (Dict.get p.pending u)) p.store k,
  )

  serve-Reserved :
      {store : Dict String V} {t : String} {ops : List (Operation V)} {p : Participant V}
      (r : Request V)
      → IsOther t r
      → Reserved store t ops p
      → Reserved store t ops (serve p r)
  unfolding serve prepare abort set_available
  serve-Reserved {t = t} {p = p} (prepare_request u us) o s = record {
    valid = prepare-IsValid p u us s.valid;
    stands = ground (arith, s.stands, get-put p.pending u us t);
    same = λ k h. ground (arith, s.same k h);
  }
  serve-Reserved {t = t} {ops = ops} {p = p} (commit_request u) o s = record {
    valid = commit-IsValid p u s.valid;
    stands = unfold commit in ground (arith, s.stands, get-remove p.pending u t);
    same = λ k h. commit-same p t u ops k s.valid s.stands o h ∙ s.same k h;
  }
  serve-Reserved {t = t} {p = p} (abort_request u) o s = record {
    valid = abort-IsValid p u s.valid;
    stands = ground (arith, s.stands, get-remove p.pending u t);
    same = λ k h. ground (arith, s.same k h);
  }
  serve-Reserved (availability b) o s = record {
    valid = record { locked = s.valid.locked };
    stands = s.stands;
    same = s.same;
  }

  serve_all-Reserved :
      {store : Dict String V} {t : String} {ops : List (Operation V)} (p : Participant V)
      (rs : List (Request V))
      → All (IsOther t) rs
      → Reserved store t ops p
      → Reserved store t ops (serve_all p rs)
  unfolding serve_all
  serve_all-Reserved p [] o s = s
  serve_all-Reserved p (r ∷ rs) o s = serve_all-Reserved (serve p r) rs o.1 (serve-Reserved r o.0 s)

  prepare-Reserved :
      (p : Participant V) (t : String) (ops : List (Operation V))
      → IsValid p
      → (prepare p t ops).1 ≡ yes_vote
      → Reserved p.store t ops (prepare p t ops).0
  unfolding prepare
  prepare-Reserved p t ops v yes_said = record {
    valid = prepare-IsValid p t ops v;
    stands = ground (arith, get-put p.pending t ops t);
    same = λ k h. ground arith;
  }

  -- A participant that voted yes for a transaction keeps the transaction's keys for it: whatever other
  -- transactions prepare, commit or abort afterwards, and whether or not the participant was down for a
  -- while, every key of the transaction stays locked by it, and a commit of the transaction, once the
  -- participant is available, leaves at each such key what its operations make of the store at the
  -- time of the vote.
  pub prepared_isolated :
      (p : Participant V) (t : String) (ops : List (Operation V)) (rs : List (Request V))
      → IsValid p
      → (prepare p t ops).1 ≡ yes_vote
      → All (IsOther t) rs
      → (k : String) → has_key k ops ≡ true
      → let p' = serve_all (prepare p t ops).0 rs in
        (Dict.get p'.locks k ≡ some t)
        × (Dict.get (commit (set_available p' true) t).0.store k
            ≡ Dict.get (apply_all p.store ops) k)
  unfolding commit set_available
  prepared_isolated p t ops rs v yes_said others k h =
      let p' = serve_all (prepare p t ops).0 rs in
      let s =
        serve_all-Reserved (prepare p t ops).0 rs others (prepare-Reserved p t ops v yes_said) in
      (
        s.valid.locked t ops k s.stands h,
        rw s.stands (get-apply_all_same ops p'.store p.store k (s.same k h)),
      )
