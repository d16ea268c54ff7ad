-- ===== src/TwoPhase/Participant/Keys.antt =====
-- Which keys a list of operations names, and what its locks and writes leave at the others.
use ddia_implementations.Prelude.{
  ◌≡◌, arith, String, List, Bool, ◌≢◌, none, false, ◌∷◌, some, true, string_key, [], refl,
  if◌then◌else◌, ◌==◌, ◌||◌, ◌∙◌,
}
use ddia_implementations.Dict
use ddia_implementations.Dict.{Dict, get-put, get-remove}
use ddia_implementations.TwoPhase.Participant.{
  Operation, key_of, lock_all, unlock_all, give_up, conflict, apply_all, set_op, delete_op,
  other_op,
}

module _ {V : Type 0} where
  unfoldable pub has_key : String → List (Operation V) → Bool
  has_key k [] = false
  has_key k (op ∷ ops) = key_of op == k || has_key k ops

  pub get-lock_all :
      (ops : List (Operation V)) (locks : Dict String String) (t k : String)
      → Dict.get (lock_all locks t ops) k ≡ (if has_key k ops then some t else Dict.get locks k)
  unfolding lock_all has_key
  get-lock_all [] locks t k = refl
  get-lock_all (op ∷ ops) locks t k =
      ground
        (arith, get-lock_all ops (Dict.put locks (key_of op) t) t k, get-put locks (key_of op) t k)

  pub get-unlock_all :
      (ops : List (Operation V)) (locks : Dict String String) (k : String)
      → Dict.get (unlock_all locks ops) k ≡ (if has_key k ops then none else Dict.get locks k)
  unfolding unlock_all has_key
  get-unlock_all [] locks k = refl
  get-unlock_all (op ∷ ops) locks k =
      ground (
        arith,
        get-unlock_all ops (Dict.remove locks (key_of op)) k,
        get-remove locks (key_of op) k,
      )

  pub get-give_up_other :
      (ops : List (Operation V)) (locks : Dict String String) (t k : String)
      → Dict.get locks k ≢ some t
      → Dict.get (give_up locks t ops) k ≡ Dict.get locks k
  unfolding give_up
  get-give_up_other [] locks t k h = refl
  get-give_up_other (op ∷ ops) locks t k h = ground (
    arith,
    get-give_up_other ops locks t k,
    get-give_up_other ops (Dict.remove locks (key_of op)) t k,
    get-remove locks (key_of op) k,
  )

  get-give_up-none :
      (ops : List (Operation V)) (locks : Dict String String) (t k : String)
      → Dict.get locks k ≡ none
      → Dict.get (give_up locks t ops) k ≡ none
  get-give_up-none ops locks t k h = get-give_up_other ops locks t k (λ e. cc) ∙ h

  pub get-give_up_self :
      (ops : List (Operation V)) (locks : Dict String String) (t k : String)
      → has_key k ops ≡ true
      → Dict.get locks k ≡ some t
      → Dict.get (give_up locks t ops) k ≡ none
  unfolding give_up has_key
  get-give_up_self [] locks t k h e = cc
  get-give_up_self (op ∷ ops) locks t k h e = ground (
    arith,
    get-give_up_self ops locks t k,
    get-give_up_self ops (Dict.remove locks (key_of op)) t k,
    get-give_up-none ops (Dict.remove locks (key_of op)) t k,
    get-remove locks (key_of op) k,
  )

  pub conflict-eq-none :
      (ops : List (Operation V)) (locks : Dict String String) (t k holder : String)
      → conflict locks t ops ≡ none
      → has_key k ops ≡ true
      → Dict.get locks k ≡ some holder
      → holder ≡ t
  unfolding conflict has_key
  conflict-eq-none [] locks t k holder c h e = cc
  conflict-eq-none (op ∷ ops) locks t k holder c h e =
      ground (arith, conflict-eq-none ops locks t k holder)

  pub get-apply_all_other :
      (ops : List (Operation V)) (store : Dict String V) (k : String)
      → has_key k ops ≡ false
      → Dict.get (apply_all store ops) k ≡ Dict.get store k
  unfolding apply_all has_key
  get-apply_all_other [] store k h = refl
  get-apply_all_other (set_op j v ∷ ops) store k h =
      ground (arith, get-apply_all_other ops (Dict.put store j v) k, get-put store j v k)
  get-apply_all_other (delete_op j ∷ ops) store k h =
      ground (arith, get-apply_all_other ops (Dict.remove store j) k, get-remove store j k)
  get-apply_all_other (other_op j ∷ ops) store k h = ground (arith, get-apply_all_other ops store k)

  -- At a key, what a list of operations leaves depends on what stood there before.
  pub get-apply_all_same :
      (ops : List (Operation V)) (a b : Dict String V) (k : String)
      → Dict.get a k ≡ Dict.get b k
      → Dict.get (apply_all a ops) k ≡ Dict.get (apply_all b ops) k
  unfolding apply_all
  get-apply_all_same [] a b k h = h
  get-apply_all_same (set_op j v ∷ ops) a b k h =
      get-apply_all_same ops (Dict.put a j v) (Dict.put b j v) k
        (ground (arith, get-put a j v k, get-put b j v k))
  get-apply_all_same (delete_op j ∷ ops) a b k h =
      get-apply_all_same ops (Dict.remove a j) (Dict.remove b j) k
        (ground (arith, get-remove a j k, get-remove b j k))
  get-apply_all_same (other_op j ∷ ops) a b k h = get-apply_all_same ops a b k h
