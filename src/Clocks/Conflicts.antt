-- ===== src/Clocks/Conflicts.antt =====
-- `find_conflicts` of vector-clocks/vector_clock.py on what the store holds.
use ddia_implementations.Clocks.Siblings.{
  IsOwned, keep-All, surviving-All, init-IsOwned, surviving-new_clock, serve_all-IsOwned,
}
use ddia_implementations.Prelude.{
  String, Bool, List, string_key, ◌∷◌, All, ◌≡◌, false, true, subst, ltb, arith, if◌then◌else◌,
  ◌++◌, length, [], All-append, refl, Option,
}
use ddia_implementations.Dict
use ddia_implementations.Dict.{Dict, get-put}
use ddia_implementations.Clocks.Clock.{VectorClock, is_concurrent, dominates}
use ddia_implementations.Clocks.Order.{compare-dominates}
use ddia_implementations.Clocks.Store.{
  receive_replica, VersionedValue, VersionedKvStore, Call, surviving, any_dominates, get_versions,
  serve_all, conflicts_with, find_conflicts, serve, init, put_call, put, new_clock, receive_call,
  receive_replica, reconcile_call, reconcile,
}

is_concurrent-dominates :
    (a b : VectorClock) → dominates a b ≡ false → dominates b a ≡ false → is_concurrent a b ≡ true
unfolding is_concurrent
is_concurrent-dominates a b h g = ground (arith, compare-dominates a b)

module _ {V : Type 0} where
  -- pairwise concurrent versions
  abbrev IsAntichain : List (VersionedValue V) → Type 0
  IsAntichain [] = Unit
  IsAntichain (v ∷ vs) =
      All (λ w. is_concurrent v.vector_clock w.vector_clock ≡ true) vs × IsAntichain vs

  surviving-IsAntichain :
      (vc : VectorClock) (vs : List (VersionedValue V))
      → IsAntichain vs
      → IsAntichain (surviving vc vs)
  unfolding surviving
  surviving-IsAntichain vc [] h = tt
  surviving-IsAntichain vc (v ∷ vs) (h, hs) =
      keep_antichain (surviving vc vs) (dominates vc v.vector_clock)
        (surviving-All (λ w. is_concurrent v.vector_clock w.vector_clock ≡ true) vc vs h)
        (surviving-IsAntichain vc vs hs)
    where
      keep_antichain :
          (ws : List (VersionedValue V)) (b : Bool)
          → All (λ w. is_concurrent v.vector_clock w.vector_clock ≡ true) ws
          → IsAntichain ws
          → IsAntichain (if b then ws else v ∷ ws)
      keep_antichain ws true g gs = gs
      keep_antichain ws false g gs = (g, gs)

  surviving-undominated :
      (vc : VectorClock) (vs : List (VersionedValue V))
      → All (λ v. dominates vc v.vector_clock ≡ false) (surviving vc vs)
  unfolding surviving
  surviving-undominated vc [] = tt
  surviving-undominated vc (v ∷ vs) =
      keep-All (λ v. dominates vc v.vector_clock ≡ false) (dominates vc v.vector_clock) v
        (surviving vc vs) (λ e. e) (surviving-undominated vc vs)

  any_dominates-concurrent :
      (vs : List (VersionedValue V)) (vc : VectorClock)
      → any_dominates vs vc ≡ false
      → All (λ v. dominates vc v.vector_clock ≡ false) vs
      → All (λ v. is_concurrent v.vector_clock vc ≡ true) vs
  unfolding any_dominates
  any_dominates-concurrent [] vc h g = tt
  any_dominates-concurrent (v ∷ vs) vc h (g, gs) = (
    is_concurrent-dominates v.vector_clock vc (ground arith) g,
    any_dominates-concurrent vs vc (ground arith) gs,
  )

  snoc-IsAntichain :
      (vs : List (VersionedValue V)) (x : VersionedValue V)
      → IsAntichain vs
      → All (λ v. is_concurrent v.vector_clock x.vector_clock ≡ true) vs
      → IsAntichain (vs ++ x ∷ [])
  snoc-IsAntichain [] x h g = (tt, tt)
  snoc-IsAntichain (v ∷ vs) x (h, hs) (g, gs) = (
    All-append (λ w. is_concurrent v.vector_clock w.vector_clock ≡ true) vs (x ∷ []) h (g, tt),
    snoc-IsAntichain vs x hs gs,
  )

  receive-IsAntichain :
      (vs : List (VersionedValue V)) (x : VersionedValue V) (b : Bool)
      → any_dominates vs x.vector_clock ≡ b
      → IsAntichain vs
      → All (λ v. dominates x.vector_clock v.vector_clock ≡ false) vs
      → IsAntichain (if b then vs else vs ++ x ∷ [])
  receive-IsAntichain vs x true e h g = h
  receive-IsAntichain vs x false e h g =
      snoc-IsAntichain vs x h (any_dominates-concurrent vs x.vector_clock e g)

  change-IsAntichain :
      (s s' : VersionedKvStore V) (key : String) (vs : List (VersionedValue V))
      → ((k : String) → IsAntichain (get_versions s k))
      → s'.contents ≡ Dict.put s.contents key vs
      → IsAntichain vs
      → (k : String) → IsAntichain (get_versions s' k)
  unfolding get_versions
  change-IsAntichain s s' key vs h c a k = elim (string_key.dec key k) [
    | yes e ↦ subst IsAntichain (ground (arith, get-put s.contents key vs k)) a
    | no ne ↦ subst IsAntichain (ground (arith, get-put s.contents key vs k)) (h k)
  ]

  put-contents :
      (s : VersionedKvStore V) (key : String) (x : V) (context : Option VectorClock)
      → IsOwned s
      → (put s key x context).0.contents
        ≡ Dict.put s.contents key (record { value = x; vector_clock = new_clock s context } ∷ [])
  unfolding put
  put-contents s key x context o = ground (arith, surviving-new_clock s key context o)

  serve_all-IsAntichain :
      (s : VersionedKvStore V) (calls : List (Call V))
      → IsOwned s
      → ((k : String) → IsAntichain (get_versions s k))
      → (k : String) → IsAntichain (get_versions (serve_all s calls) k)
  unfolding serve_all serve
  serve_all-IsAntichain s [] o h k = h k
  serve_all-IsAntichain s (c ∷ cs) o h k =
      serve_all-IsAntichain (serve s c) cs (serve_all-IsOwned s (c ∷ []) o) (one c) k
    where
      one : (c : Call V) (k : String) → IsAntichain (get_versions (serve s c) k)
      one (put_call key x context) k =
          change-IsAntichain s (put s key x context).0 key
            (record { value = x; vector_clock = new_clock s context } ∷ []) h
            (put-contents s key x context o) (tt, tt) k
      one (receive_call key x vc) k =
          let kept = surviving vc (get_versions s key) in
          change-IsAntichain s (receive_replica s key x vc) key _ h refl
            (receive-IsAntichain kept (record { value = x; vector_clock = vc })
              (any_dominates kept vc) refl (surviving-IsAntichain vc (get_versions s key) (h key))
              (surviving-undominated vc (get_versions s key)))
            k
      one (reconcile_call key x contexts) k =
          change-IsAntichain s (reconcile s key x contexts).0 key
            (record { value = x; vector_clock = (reconcile s key x contexts).1 } ∷ []) h refl
            (tt, tt) k

  conflicts_with-antichain :
      (v : VersionedValue V) (w : VersionedValue V) (ws : List (VersionedValue V))
      → is_concurrent v.vector_clock w.vector_clock ≡ true
      → conflicts_with v (w ∷ ws) ≡ true
  unfolding conflicts_with
  conflicts_with-antichain v w ws h = ground arith

  find_conflicts-antichain :
      (vs : List (VersionedValue V)) → IsAntichain vs → find_conflicts vs ≡ ltb 1 (length vs)
  unfolding find_conflicts conflicts_with
  find_conflicts-antichain [] h = refl
  find_conflicts-antichain (v ∷ []) h = refl
  find_conflicts-antichain (v ∷ w ∷ ws) ((h, _), _) = ground arith

  pub find_conflicts-get_versions :
      (id : String) (calls : List (Call V)) (key : String)
      → find_conflicts (get_versions (serve_all (init id) calls) key)
        ≡ ltb 1 (length (get_versions (serve_all (init id) calls) key))
  unfolding get_versions Dict.get
  find_conflicts-get_versions id calls key =
      find_conflicts-antichain _ (serve_all-IsAntichain (init id) calls (init-IsOwned id) start key)
    where
      start : (k : String) → IsAntichain (get_versions (init id) k)
      start k = tt
