-- ===== src/Mvcc/Steps.antt =====
-- One call on the database by one transaction, and that such a call keeps the tables valid.
use ddia_implementations.Prelude.{
  ℕ, String, Bool, ◌≡◌, some, true, arith, nat_key, Option-cases, Bool-cases, List, refl, inl, inr,
  ◌++◌, none, string_key, ◌∷◌, [], ap, false, sym, ◌+◌, subst,
}
use ddia_implementations.Dict
use ddia_implementations.Dict.{get-put, Dict}
use ddia_implementations.Sets
use ddia_implementations.Mvcc.Database.{
  Database, Result, begin_transaction, check_active, check_writable, commit_active, abort_active,
  write, delete, commit, ◌>>=◌, Transaction, ok, abort, is_active, raise, committed, aborted,
  update_own, any_visible, Version, versions_of, add_write, mark, has_conflict,
}
use ddia_implementations.Mvcc.Valid.{
  IsValid, change-IsValid, begin-IsValid, active_at, same-IsValid,
}

module _ {V : Type 0} where
  -- the calls that change the database, by the transaction `u`
  pub data Step (db : Database V) : ℕ → Database V → Type 0 where
    began : (ro : Bool) → Step db db.next_tx_id ((begin_transaction db ro).0)
    wrote :
        (u : ℕ) (k : String) (x : V) (db' : Database V) → write db u k x ≡ ok db' → Step db u db'
    deleted :
        (u : ℕ) (k : String) (b : Bool) (db' : Database V)
        → delete db u k ≡ ok (db', b)
        → Step db u db'
    ended : (u : ℕ) (b : Bool) (db' : Database V) → commit db u ≡ ok (db', b) → Step db u db'
    gave_up : (u : ℕ) (db' : Database V) → abort db u ≡ ok db' → Step db u db'

  pub check_active-eq-ok :
      (db : Database V) (u : ℕ) (t : Transaction)
      → check_active db u ≡ ok t
      → (Dict.get db.transactions u ≡ some t) × (is_active t ≡ true)
  unfolding check_active
  check_active-eq-ok db u t h = ground arith

  pub check_writable-eq-ok :
      (db : Database V) (u : ℕ) (t : Transaction)
      → check_writable db u ≡ ok t
      → (Dict.get db.transactions u ≡ some t) × (is_active t ≡ true)
  unfolding check_writable check_active
  check_writable-eq-ok db u t h = ground arith

pub >>=-eq-ok :
    {A B : Type 0} (m : Result A) (f : A → Result B) (b : B)
    → (m >>= f) ≡ ok b
    → (a : A) × ((m ≡ ok a) × (f a ≡ ok b))
>>=-eq-ok (ok a) f b h = (a, (refl, h))
>>=-eq-ok (raise e) f b h = ground arith

pub ok-injective : {A : Type 0} (a b : A) → ok a ≡ ok b → a ≡ b
ok-injective a b h = cc

pub ok-injective_first :
    {A B : Type 0} {a a' : A} {b b' : B}
    → ◌≡◌ {A = Result (A × B)} (ok (a, b)) (ok (a', b'))
    → a ≡ a'
ok-injective_first h = cc

module _ {V : Type 0} where
  pub commit_active-IsValid :
      (db : Database V) (u : ℕ) (t : Transaction)
      → IsValid db
      → Dict.get db.transactions u ≡ some t
      → is_active t ≡ true
      → IsValid (commit_active db t)
  unfolding commit_active
  commit_active-IsValid db u t v h a =
      change-IsValid db (commit_active db t) t.tx_id t (record t { status = committed }) v
        (ground (arith, v.issued u t)) a refl refl refl refl
        (λ m ne. ground (arith, Sets.member-insert t.tx_id m db.committed_ids)) (λ m ne. refl)
        (λ o. ground arith)

  pub abort_active-IsValid :
      (db : Database V) (u : ℕ) (t : Transaction)
      → IsValid db
      → Dict.get db.transactions u ≡ some t
      → is_active t ≡ true
      → IsValid (abort_active db t)
  unfolding abort_active
  abort_active-IsValid db u t v h a =
      change-IsValid db (abort_active db t) t.tx_id t (record t { status = aborted }) v
        (ground (arith, v.issued u t)) a refl refl refl refl (λ m ne. refl)
        (λ m ne. ground (arith, Sets.member-insert t.tx_id m db.aborted_ids)) (λ o. ground arith)

  -- a key in the write set, and other versions
  pub add_write-IsValid :
      (db : Database V) (u : ℕ) (t : Transaction) (k : String) (vs : Dict String (List (Version V)))
      → IsValid db
      → Dict.get db.transactions u ≡ some t
      → is_active t ≡ true
      → IsValid
          (record db { versions = vs; transactions = Dict.put db.transactions u (add_write t k) })
  unfolding active_at
  add_write-IsValid db u t k vs v h a =
      change-IsValid db
        (record db { versions = vs; transactions = Dict.put db.transactions u (add_write t k) }) u t
        (add_write t k) v h a refl refl refl refl (λ m ne. refl) (λ m ne. refl)
        (λ o. v.open_ended u (ground arith))

  -- what a write that returns has done
  pub data Written (db : Database V) (u : ℕ) (k : String) (x : V) (db' : Database V) : Type 0 where
    in_place :
        (t : Transaction) (vs : List (Version V))
        → Dict.get db.transactions u ≡ some t
        → is_active t ≡ true
        → update_own t.tx_id x (versions_of db k) ≡ some vs
        → record db { versions = Dict.put db.versions k vs } ≡ db'
        → Written db u k x db'
    appended :
        (t : Transaction)
        → Dict.get db.transactions u ≡ some t
        → is_active t ≡ true
        → record db {
          versions = Dict.put db.versions k (
              versions_of db k
              ++ record { key = k; value = x; created_by = t.tx_id; deleted_by = none } ∷ []);
          transactions = Dict.put db.transactions u (add_write t k);
        }
          ≡ db'
        → Written db u k x db'

  pub write-eq-ok :
      (db : Database V) (u : ℕ) (k : String) (x : V) (db' : Database V)
      → write db u k x ≡ ok db'
      → Written db u k x db'
  unfolding write
  write-eq-ok db u k x db' h =
      let (t, (c, e)) = >>=-eq-ok (check_writable db u) _ db' h in
      let (g, a) = check_writable-eq-ok db u t c in
      elim (Option-cases (update_own t.tx_id x (versions_of db k))) [
        | inl n ↦ appended t g a (ok-injective _ _ (ground arith))
        | inr (vs, q) ↦ in_place t vs g a q (ok-injective _ _ (ground arith))
      ]

  -- what a deletion that returns has done
  pub data Deleted (db : Database V) (u : ℕ) (k : String) (db' : Database V) : Type 0 where
    nothing : db ≡ db' → Deleted db u k db'
    marked :
        (t : Transaction)
        → Dict.get db.transactions u ≡ some t
        → is_active t ≡ true
        → record db {
          versions = Dict.put db.versions k (mark db t (versions_of db k));
          transactions = Dict.put db.transactions u (add_write t k);
        }
          ≡ db'
        → Deleted db u k db'

  pub delete-eq-ok :
      (db : Database V) (u : ℕ) (k : String) (b : Bool) (db' : Database V)
      → delete db u k ≡ ok (db', b)
      → Deleted db u k db'
  unfolding delete
  delete-eq-ok db u k b db' h =
      let (t, (c, e)) = >>=-eq-ok (check_writable db u) _ (db', b) h in
      let (g, a) = check_writable-eq-ok db u t c in
      elim (Bool-cases (any_visible db t (versions_of db k))) [
        | inl q ↦ marked t g a (ok-injective_first {a' = db'} {b = true} {b' = b} (ground arith))
        | inr q ↦ nothing (ok-injective_first {b = false} {b' = b} (ground arith))
      ]

  -- what a commit that returns has done
  pub data Ended (db : Database V) (u : ℕ) (db' : Database V) : Type 0 where
    kept :
        (t : Transaction)
        → Dict.get db.transactions u ≡ some t
        → is_active t ≡ true
        → db'.versions ≡ db.versions
        → db'.next_tx_id ≡ db.next_tx_id
        → db'.transactions ≡ (commit_active db t).transactions
        → db'.committed_ids ≡ (commit_active db t).committed_ids
        → db'.aborted_ids ≡ db.aborted_ids
        → Ended db u db'
    refused :
        (t : Transaction)
        → Dict.get db.transactions u ≡ some t
        → is_active t ≡ true
        → abort_active db t ≡ db'
        → Ended db u db'

  -- a commit that writes
  abbrev timed : Database V → Transaction → Database V
  timed db t = record (commit_active db t) {
    next_timestamp = db.next_timestamp + 1;
    commit_timestamps = Dict.put db.commit_timestamps t.tx_id db.next_timestamp;
  }

  pub commit-eq-ok :
      (db : Database V) (u : ℕ) (b : Bool) (db' : Database V)
      → commit db u ≡ ok (db', b)
      → Ended db u db'
  unfolding commit commit_active
  commit-eq-ok db u b db' h =
      let (t, (c, e)) = >>=-eq-ok (check_active db u) _ (db', b) h in
      let (g, a) = check_active-eq-ok db u t c in
      elim (Bool-cases t.read_only) [
        | inl q ↦
            let q' =
              ok-injective_first {a = commit_active db t} {a' = db'} {b = true} {b' = b}
                (ground arith) in
            kept t g a (ap (λ (p : Database V). p.versions) (sym q'))
              (ap (λ (p : Database V). p.next_tx_id) (sym q'))
              (ap (λ (p : Database V). p.transactions) (sym q'))
              (ap (λ (p : Database V). p.committed_ids) (sym q'))
              (ap (λ (p : Database V). p.aborted_ids) (sym q'))
        | inr q ↦ elim (Bool-cases (has_conflict db t t.write_set)) [
          | inl w ↦
              refused t g a (ok-injective_first {a' = db'} {b = false} {b' = b} (ground arith))
          | inr w ↦
              let q' =
                ok-injective_first {a = timed db t} {a' = db'} {b = true} {b' = b} (ground arith) in
              kept t g a (ap (λ (p : Database V). p.versions) (sym q'))
                (ap (λ (p : Database V). p.next_tx_id) (sym q'))
                (ap (λ (p : Database V). p.transactions) (sym q'))
                (ap (λ (p : Database V). p.committed_ids) (sym q'))
                (ap (λ (p : Database V). p.aborted_ids) (sym q'))
        ]
      ]

  pub abort-eq-ok :
      (db : Database V) (u : ℕ) (db' : Database V)
      → abort db u ≡ ok db'
      → (t : Transaction) × ((Dict.get db.transactions u ≡ some t)
          × ((is_active t ≡ true) × (abort_active db t ≡ db')))
  unfolding abort
  abort-eq-ok db u db' h =
      let (t, (c, e)) = >>=-eq-ok (check_active db u) _ db' h in
      let (g, a) = check_active-eq-ok db u t c in (t, (g, (a, ok-injective _ _ e)))

  pub Step-IsValid : {db db' : Database V} {u : ℕ} → IsValid db → Step db u db' → IsValid db'
  unfolding commit_active
  Step-IsValid {db} v (began ro) = begin-IsValid db ro v
  Step-IsValid {db} v (wrote u k x db' h) = elim (write-eq-ok db u k x db' h) [
    | in_place t vs g a q e ↦
        subst IsValid e (
          same-IsValid db (record db { versions = Dict.put db.versions k vs }) v refl refl refl
            refl)
    | appended t g a e ↦ subst IsValid e (add_write-IsValid db u t k _ v g a)
  ]
  Step-IsValid {db} v (deleted u k b db' h) = elim (delete-eq-ok db u k b db' h) [
    | nothing e ↦ subst IsValid e v
    | marked t g a e ↦ subst IsValid e (add_write-IsValid db u t k _ v g a)
  ]
  Step-IsValid {db} v (ended u b db' h) = elim (commit-eq-ok db u b db' h) [
    | kept t g a vs nx ts c ab ↦
        same-IsValid (commit_active db t) db' (commit_active-IsValid db u t v g a) ts nx c ab
    | refused t g a e ↦ subst IsValid e (abort_active-IsValid db u t v g a)
  ]
  Step-IsValid {db} v (gave_up u db' h) =
      let (t, (g, (a, e))) = abort-eq-ok db u db' h in
      subst IsValid e (abort_active-IsValid db u t v g a)
