-- ===== src/Mvcc/Snapshot.antt =====
-- What one transaction sees while the calls of other transactions come between its own.
use ddia_implementations.Prelude.{
  ℕ, String, nat_key, string_key, List, ◌≡◌, Option, ◌≢◌, ◌∷◌, ◌++◌, Option-cases, some, false,
  if◌then◌else◌, inl, true, arith, All, [], inr, none, refl, Bool-cases, ◌==◌,
}
use ddia_implementations.Dict
use ddia_implementations.Dict.{get-put, Dict}
use ddia_implementations.Sets
use ddia_implementations.Mvcc.Database.{
  Database, Version, Transaction, last_visible, is_visible, read, sees, is_live, check_active,
  update_own, mark, unmark, is_active, ok, versions_of,
}
use ddia_implementations.Mvcc.Valid.{IsValid, active_at}

module _ {V : Type 0} where
  -- the versions of a key in a table
  abbrev pub entry : Dict String (List (Version V)) → String → List (Version V)
  entry d k = elim (Dict.get d k) [ none ↦ [] | some vs ↦ vs ]

  pub last_visible-cong :
      (db db' : Database V) (t : Transaction)
      → ((v : Version V) → is_visible db' t v ≡ is_visible db t v)
      → (found : Option V) (vs : List (Version V))
      → last_visible db' t found vs ≡ last_visible db t found vs
  unfolding last_visible
  last_visible-cong db db' t h found [] = refl
  last_visible-cong db db' t h found (v ∷ vs) = ground (
    arith,
    h v,
    last_visible-cong db db' t h (if is_visible db t v then some v.value else found) vs,
  )

  pub last_visible-append :
      (db : Database V) (t : Transaction) (found : Option V) (vs ws : List (Version V))
      → last_visible db t found (vs ++ ws) ≡ last_visible db t (last_visible db t found vs) ws
  unfolding last_visible
  last_visible-append db t found [] ws = refl
  last_visible-append db t found (v ∷ vs) ws =
      last_visible-append db t (if is_visible db t v then some v.value else found) vs ws

  -- the second half of the test of a version does not look at the versions
  pub is_visible-cong :
      (db db' : Database V) (t : Transaction) (v : Version V)
      → ((by : ℕ) → sees db' t by ≡ sees db t by)
      → db'.aborted_ids ≡ db.aborted_ids
      → is_visible db' t v ≡ is_visible db t v
  unfolding is_visible is_live
  is_visible-cong db db' t v s ab = elim (Option-cases v.deleted_by) [
    | inl n ↦ ground (arith, s v.created_by)
    | inr (by, n) ↦ ground (arith, s v.created_by, s by)
  ]

  pub read-shown :
      (db : Database V) (n : ℕ) (t : Transaction) (k : String)
      → Dict.get db.transactions n ≡ some t
      → is_active t ≡ true
      → read db n k ≡ ok (last_visible db t none (versions_of db k))
  unfolding read check_active
  read-shown db n t k h a = ground arith

  -- `u` is at work and is not `t`, so that `t` sees nothing of it
  pub sees-other :
      (db : Database V) (u : ℕ) (w t : Transaction)
      → IsValid db
      → Dict.get db.transactions u ≡ some w
      → is_active w ≡ true
      → sees db t u ≡ false
  unfolding sees active_at
  sees-other db u w t v h a = ground (arith, v.open_ended u)

  pub sees-commit_active :
      (db db' : Database V) (n u : ℕ) (w t : Transaction) (by : ℕ)
      → IsValid db
      → Dict.get db.transactions n ≡ some t
      → Dict.get db.transactions u ≡ some w
      → is_active w ≡ true
      → db'.committed_ids ≡ Sets.insert u db.committed_ids
      → sees db' t by ≡ sees db t by
  unfolding sees active_at
  sees-commit_active db db' n u w t by v hn hu a c =
      ground (
        arith,
        Sets.member-insert u by db.committed_ids,
        v.issued n t,
        v.over n u t,
        v.open_ended u,
      )

  pub is_live-other :
      (db : Database V) (t : Transaction) (u : ℕ)
      → u ≢ t.tx_id
      → sees db t u ≡ false
      → is_live db t (some u) ≡ true
  unfolding is_live
  is_live-other db t u ne s = ground arith

  pub is_visible-other :
      (db : Database V) (t : Transaction) (v : Version V)
      → v.created_by ≢ t.tx_id
      → sees db t v.created_by ≡ false
      → is_visible db t v ≡ false
  unfolding is_visible
  is_visible-other db t v ne s = ground arith

  pub last_visible-update_own :
      (db : Database V) (t : Transaction) (u : ℕ) (x : V) (found : Option V)
      (vs vs' : List (Version V))
      → u ≢ t.tx_id
      → sees db t u ≡ false
      → update_own u x vs ≡ some vs'
      → last_visible db t found vs' ≡ last_visible db t found vs
  unfolding last_visible update_own
  last_visible-update_own db t u x found [] vs' ne s h = ground arith
  last_visible-update_own db t u x found (v ∷ vs) vs' ne s h =
      elim (Option-cases (update_own u x vs)) [
        | inl n ↦
            ground (arith, is_visible-other db t v, is_visible-other db t (record v { value = x }))
        | inr (ws, n) ↦ ground (
          arith,
          is_visible-other db t v,
          is_visible-other db t (record v { value = x }),
          last_visible-update_own db t u x (if is_visible db t v then some v.value else found) vs ws
              ne s n,
        )
      ]

  pub is_visible-marked :
      (db : Database V) (t w : Transaction) (v : Version V)
      → w.tx_id ≢ t.tx_id
      → sees db t w.tx_id ≡ false
      → (is_visible db w v ≡ true → v.deleted_by ≡ none)
      → is_visible db t (if is_visible db w v then record v { deleted_by = some w.tx_id } else v)
        ≡ is_visible db t v
  unfolding is_visible
  is_visible-marked db t w v ne s h = elim (Bool-cases (is_visible db w v)) [
    | inl p ↦ ground (arith, is_live-other db t w.tx_id ne s, h p)
    | inr p ↦ ground arith
  ]

  pub is_visible-unmarked :
      (db : Database V) (t : Transaction) (u : ℕ) (v : Version V)
      → u ≢ t.tx_id
      → sees db t u ≡ false
      → is_visible db t (elim v.deleted_by [
        | none ↦ v
        | some by ↦ if by == u then record v { deleted_by = none } else v
      ])
        ≡ is_visible db t v
  unfolding is_visible is_live
  is_visible-unmarked db t u v ne s = elim (Option-cases v.deleted_by) [
    | inl n ↦ ground arith
    | inr (by, n) ↦ ground (arith, is_live-other db t by)
  ]

  pub last_visible-mark :
      (db : Database V) (t w : Transaction) (found : Option V) (vs : List (Version V))
      → w.tx_id ≢ t.tx_id
      → sees db t w.tx_id ≡ false
      → All (λ v. is_visible db w v ≡ true → v.deleted_by ≡ none) vs
      → last_visible db t found (mark db w vs) ≡ last_visible db t found vs
  unfolding last_visible mark is_visible is_live
  last_visible-mark db t w found [] ne s h = refl
  last_visible-mark db t w found (v ∷ vs) ne s (hv, h) = ground (
    arith,
    is_visible-marked db t w v ne s hv,
    last_visible-mark db t w (if is_visible db t v then some v.value else found) vs ne s h,
  )

  pub last_visible-unmark :
      (db : Database V) (t : Transaction) (u : ℕ) (found : Option V) (vs : List (Version V))
      → u ≢ t.tx_id
      → sees db t u ≡ false
      → last_visible db t found (unmark u vs) ≡ last_visible db t found vs
  unfolding last_visible unmark is_visible is_live
  last_visible-unmark db t u found [] ne s = refl
  last_visible-unmark db t u found (v ∷ vs) ne s = ground (
    arith,
    is_visible-unmarked db t u v ne s,
    last_visible-unmark db t u (if is_visible db t v then some v.value else found) vs ne s,
  )
