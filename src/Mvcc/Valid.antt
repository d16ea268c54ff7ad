-- ===== src/Mvcc/Valid.antt =====
-- What the tables of the database say of each other.
use ddia_implementations.Prelude.{
  ℕ, none, ◌≢◌, [], ◌∷◌, ◌≡◌, ◌<◌, arith, Bool, some, true, false, nat_key, refl,
}
use ddia_implementations.Dict
use ddia_implementations.Dict.{Dict, get-put}
use ddia_implementations.Sets
use ddia_implementations.Mvcc.Database.{
  Database, Transaction, empty, is_active, active_ids, begin_transaction, active,
}

-- The status of a transaction, `none` where the number was not given out.
unfoldable pub active_at : Dict ℕ Transaction → ℕ → Bool
active_at d n = elim (Dict.get d n) [ none ↦ false | some t ↦ is_active t ]

pub record IsValid {V : Type 0} (db : Database V) : Type 0 where
  pub issued :
      (n : ℕ) (t : Transaction)
      → Dict.get db.transactions n ≡ some t
      → (t.tx_id ≡ n) × (n < db.next_tx_id)
  -- a transaction that is active is in neither of the sets
  pub open_ended :
      (n : ℕ)
      → active_at db.transactions n ≡ true
      → (Sets.member n db.committed_ids ≡ false) × (Sets.member n db.aborted_ids ≡ false)
  -- the numbers in the sets were given out
  pub closed : (n : ℕ) → Sets.member n db.committed_ids ≡ true → n < db.next_tx_id
  pub gone : (n : ℕ) → Sets.member n db.aborted_ids ≡ true → n < db.next_tx_id
  -- an older transaction that was not active when `t` began is not active now
  pub over :
      (n u : ℕ) (t : Transaction)
      → Dict.get db.transactions n ≡ some t
      → u < n
      → Sets.member u t.active_at_start ≡ false
      → active_at db.transactions u ≡ false

-- what `active_ids` finds
pub member-active_ids :
    (d : Dict ℕ Transaction) (u : ℕ) → Sets.member u (active_ids d) ≡ false → active_at d u ≡ false
unfolding active_at active_ids Dict.get Sets.member
member-active_ids [] u h = refl
member-active_ids ((j, t) ∷ d) u h = ground (arith, member-active_ids d u)

module _ {V : Type 0} where
  pub empty-IsValid : IsValid (empty {V = V})
  unfolding active_at Sets.member Dict.get
  empty-IsValid = record {
    issued = λ n t h. ground arith;
    open_ended = λ n h. (refl, refl);
    closed = λ n h. ground arith;
    gone = λ n h. ground arith;
    over = λ n u t h lt a. refl;
  }

  -- A change of the object of one active transaction `u` keeps the tables valid, if what
  -- becomes committed is `u` at most and then `u` is not active any more.
  pub change-IsValid :
      (db db' : Database V) (u : ℕ) (t t' : Transaction)
      → IsValid db
      → Dict.get db.transactions u ≡ some t
      → is_active t ≡ true
      → db'.transactions ≡ Dict.put db.transactions u t'
      → db'.next_tx_id ≡ db.next_tx_id
      → t'.tx_id ≡ t.tx_id
      → t'.active_at_start ≡ t.active_at_start
      → ((m : ℕ) → m ≢ u → Sets.member m db'.committed_ids ≡ Sets.member m db.committed_ids)
      → ((m : ℕ) → m ≢ u → Sets.member m db'.aborted_ids ≡ Sets.member m db.aborted_ids)
      → (is_active t' ≡ true
          → (Sets.member u db'.committed_ids ≡ false) × (Sets.member u db'.aborted_ids ≡ false))
      → IsValid db'
  unfolding active_at
  change-IsValid db db' u t t' v h a ts nx i s c ab o = record {
    issued = λ n w h'. ground (arith, get-put db.transactions u t' n, v.issued n w, v.issued u t);
    open_ended = λ n h'. elim (nat_key.dec n u) [
      | yes e ↦ ground (arith, get-put db.transactions u t' n)
      | no ne ↦ ground (arith, get-put db.transactions u t' n, v.open_ended n, c n ne, ab n ne)
    ];
    closed = λ n h'. elim (nat_key.dec n u) [
      | yes e ↦ ground (arith, v.issued u t)
      | no ne ↦ ground (arith, v.closed n, c n ne)
    ];
    gone = λ n h'. elim (nat_key.dec n u) [
      | yes e ↦ ground (arith, v.issued u t)
      | no ne ↦ ground (arith, v.gone n, ab n ne)
    ];
    over = λ n j w h' lt m. ground (
      arith,
      get-put db.transactions u t' n,
      get-put db.transactions u t' j,
      v.over n j w,
      v.over n j t,
    );
  }

  -- the versions and the clock are not in the tables
  pub same-IsValid :
      (db db' : Database V)
      → IsValid db
      → db'.transactions ≡ db.transactions
      → db'.next_tx_id ≡ db.next_tx_id
      → db'.committed_ids ≡ db.committed_ids
      → db'.aborted_ids ≡ db.aborted_ids
      → IsValid db'
  unfolding active_at
  same-IsValid db db' v ts nx c ab = record {
    issued = λ n w h. ground (arith, v.issued n w);
    open_ended = λ n h. ground (arith, v.open_ended n);
    closed = λ n h. ground (arith, v.closed n);
    gone = λ n h. ground (arith, v.gone n);
    over = λ n j w h lt m. ground (arith, v.over n j w);
  }

  abbrev pub opened : Database V → Bool → Transaction
  opened db ro = record {
    tx_id = db.next_tx_id;
    start_timestamp = db.next_timestamp;
    read_only = ro;
    status = active;
    write_set = [];
    active_at_start = active_ids db.transactions;
  }

  pub begin-IsValid :
      (db : Database V) (ro : Bool) → IsValid db → IsValid ((begin_transaction db ro).0)
  unfolding begin_transaction active_at
  begin-IsValid db ro v = record {
    issued = λ n w h'.
        ground (arith, v.issued n w, get-put db.transactions db.next_tx_id (opened db ro) n);
    open_ended = λ n h'. ground (
      arith,
      v.closed n,
      v.gone n,
      v.open_ended n,
      get-put db.transactions db.next_tx_id (opened db ro) n,
    );
    closed = λ n h'. ground (arith, v.closed n);
    gone = λ n h'. ground (arith, v.gone n);
    over = λ n u w h' lt m. ground (
      arith,
      v.over n u w,
      v.issued n w,
      v.issued u,
      member-active_ids db.transactions u,
      get-put db.transactions db.next_tx_id (opened db ro) n,
      get-put db.transactions db.next_tx_id (opened db ro) u,
    );
  }
