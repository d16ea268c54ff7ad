-- ===== src/Clocks/Siblings.antt =====
-- The versions that the store of vector-clocks/vector_clock.py keeps of one key.
use ddia_implementations.Prelude.{
  String, Bool, List, string_key, All, ◌≡◌, ◌∷◌, Option, true, [], arith, some, none, refl, false,
  subst, ◌++◌, if◌then◌else◌, get_or, sym, All-append,
}
use ddia_implementations.Dict
use ddia_implementations.Dict.{Dict, get-put}
use ddia_implementations.Clocks.Clock.{VectorClock, dominates, increment, merge}
use ddia_implementations.Clocks.Order.{
  IsPositive, merge_least, strip-positive, dominates_trans, increment-IsPositive, merge-IsPositive,
  increment-dominates,
}
use ddia_implementations.Clocks.Store.{
  VersionedValue, VersionedKvStore, Call, get_versions, surviving, new_clock, put, receive_replica,
  reconcile, init, serve_all, merge_all, serve, put_call, receive_call, reconcile_call,
}

module _ {V : Type 0} where
  -- the clock `c` dominates all versions
  abbrev pub IsBelow : VectorClock → List (VersionedValue V) → Type 0
  IsBelow c vs = All (λ v. dominates c v.vector_clock ≡ true) vs

  IsBelow-mono :
      (a b : VectorClock) (vs : List (VersionedValue V))
      → dominates a b ≡ true
      → IsBelow b vs
      → IsBelow a vs
  IsBelow-mono a b [] h g = tt
  IsBelow-mono a b (v ∷ vs) h (g, gs) =
      (dominates_trans a b v.vector_clock h g, IsBelow-mono a b vs h gs)

  -- The clock of the store dominates all that it holds.
  pub record IsOwned (s : VersionedKvStore V) : Type 0 where
    pub positive : IsPositive s.clock
    pub below : (key : String) → IsBelow s.clock (get_versions s key)

  surviving-none :
      (vc : VectorClock) (vs : List (VersionedValue V)) → IsBelow vc vs → surviving vc vs ≡ []
  unfolding surviving
  surviving-none vc [] h = refl
  surviving-none vc (v ∷ vs) (h, hs) = ground (arith, surviving-none vc vs hs)

  pub keep-All :
      (P : VersionedValue V → Type 0) (b : Bool) (v : VersionedValue V)
      (vs : List (VersionedValue V))
      → (b ≡ false → P v)
      → All P vs
      → All P (if b then vs else v ∷ vs)
  keep-All P true v vs h hs = hs
  keep-All P false v vs h hs = (h refl, hs)

  pub surviving-All :
      (P : VersionedValue V → Type 0) (vc : VectorClock) (vs : List (VersionedValue V))
      → All P vs
      → All P (surviving vc vs)
  unfolding surviving
  surviving-All P vc [] h = tt
  surviving-All P vc (v ∷ vs) (h, hs) =
      keep-All P (dominates vc v.vector_clock) v (surviving vc vs) (λ e. h)
        (surviving-All P vc vs hs)

  -- the store `s'` has the versions `vs` under one key, and a later clock
  change-IsOwned :
      (s s' : VersionedKvStore V) (key : String) (vs : List (VersionedValue V))
      → IsOwned s
      → s'.contents ≡ Dict.put s.contents key vs
      → IsPositive s'.clock
      → dominates s'.clock s.clock ≡ true
      → IsBelow s'.clock vs
      → IsOwned s'
  unfolding get_versions
  change-IsOwned s s' key vs o c p d b = record {
    positive = p;
    below = λ k. elim (string_key.dec key k) [
      | yes e ↦ subst (IsBelow s'.clock) (ground (arith, get-put s.contents key vs k)) b
      | no ne ↦
          subst (IsBelow s'.clock) (ground (arith, get-put s.contents key vs k))
            (IsBelow-mono s'.clock s.clock (get_or (Dict.get s.contents k) []) d (o.below k))
    ];
  }

  -- the clock of a new version dominates the clock of the store, on which it is based
  new_clock-dominates :
      (s : VersionedKvStore V) (context : Option VectorClock)
      → IsPositive s.clock
      → dominates (new_clock s context) s.clock ≡ true
  unfolding new_clock
  new_clock-dominates s none h =
      subst (λ c. dominates c s.clock ≡ true)
        (sym
          (strip-positive (increment s.clock s.node_id) (increment-IsPositive s.clock s.node_id)))
        (increment-dominates s.clock s.node_id h)
  new_clock-dominates s (some c) h =
      dominates_trans (merge c (increment s.clock s.node_id)) (increment s.clock s.node_id) s.clock
        (merge_least c (increment s.clock s.node_id) []).1.0
        (increment-dominates s.clock s.node_id h)

  pub surviving-new_clock :
      (s : VersionedKvStore V) (key : String) (context : Option VectorClock)
      → IsOwned s
      → surviving (new_clock s context) (get_versions s key) ≡ []
  surviving-new_clock s key context o =
      surviving-none _ _
        (IsBelow-mono _ s.clock _ (new_clock-dominates s context o.positive) (o.below key))

  pub get_versions-put :
      (s : VersionedKvStore V) (key : String) (value : V) (context : Option VectorClock)
      → IsOwned s
      → get_versions (put s key value context).0 key
        ≡ record { value = value; vector_clock = (put s key value context).1 } ∷ []
  unfolding put get_versions
  get_versions-put s key value context o = ground (
    arith,
    surviving-new_clock s key context o,
    get-put s.contents key
        (surviving (new_clock s context) (get_versions s key)
          ++ record { value = value; vector_clock = new_clock s context } ∷ [])
        key,
  )

  put-IsOwned :
      (s : VersionedKvStore V) (key : String) (value : V) (context : Option VectorClock)
      → IsOwned s
      → IsOwned (put s key value context).0
  unfolding put
  put-IsOwned s key value context o =
      let vc = new_clock s context in
      let mine = increment s.clock s.node_id in
      let new = merge_least mine vc [] in
      change-IsOwned s (put s key value context).0 key _ o refl (merge-IsPositive mine vc)
        (dominates_trans (merge mine vc) mine s.clock new.0
          (increment-dominates s.clock s.node_id o.positive))
        (subst
          (λ vs. IsBelow (merge mine vc) (vs ++ record { value = value; vector_clock = vc } ∷ []))
          (sym (surviving-new_clock s key context o)) (new.1.0, tt))

  pub receive-All :
      (P : VersionedValue V → Type 0) (b : Bool) (vs : List (VersionedValue V))
      (v : VersionedValue V)
      → All P vs
      → P v
      → All P (if b then vs else vs ++ v ∷ [])
  receive-All P true vs v h hv = h
  receive-All P false vs v h hv = All-append P vs (v ∷ []) h (hv, tt)

  receive_replica-IsOwned :
      (s : VersionedKvStore V) (key : String) (value : V) (vc : VectorClock)
      → IsOwned s
      → IsOwned (receive_replica s key value vc)
  unfolding receive_replica
  receive_replica-IsOwned s key value vc o =
      let new = merge_least s.clock vc [] in
      change-IsOwned s (receive_replica s key value vc) key _ o refl (merge-IsPositive s.clock vc)
        new.0
        (receive-All (λ v. dominates (merge s.clock vc) v.vector_clock ≡ true) _ _ _
          (surviving-All (λ v. dominates (merge s.clock vc) v.vector_clock ≡ true) vc
            (get_versions s key)
            (IsBelow-mono (merge s.clock vc) s.clock (get_versions s key) new.0 (o.below key)))
          new.1.0)

  reconcile-IsOwned :
      (s : VersionedKvStore V) (key : String) (value : V) (contexts : List VectorClock)
      → IsOwned s
      → IsOwned (reconcile s key value contexts).0
  unfolding reconcile
  reconcile-IsOwned s key value contexts o =
      let merged = increment (merge (merge_all [] contexts) s.clock) s.node_id in
      let new = merge_least s.clock merged [] in
      change-IsOwned s (reconcile s key value contexts).0 key _ o refl
        (merge-IsPositive s.clock merged) new.0 (new.1.0, tt)

  pub init-IsOwned : (id : String) → IsOwned (init {V = V} id)
  unfolding get_versions Dict.get
  init-IsOwned id = record { positive = tt; below = λ k. tt }

  pub serve_all-IsOwned :
      (s : VersionedKvStore V) (calls : List (Call V)) → IsOwned s → IsOwned (serve_all s calls)
  unfolding serve_all serve
  serve_all-IsOwned s [] o = o
  serve_all-IsOwned s (put_call k x c ∷ cs) o =
      serve_all-IsOwned (put s k x c).0 cs (put-IsOwned s k x c o)
  serve_all-IsOwned s (receive_call k x vc ∷ cs) o =
      serve_all-IsOwned (receive_replica s k x vc) cs (receive_replica-IsOwned s k x vc o)
  serve_all-IsOwned s (reconcile_call k x cs' ∷ cs) o =
      serve_all-IsOwned (reconcile s k x cs').0 cs (reconcile-IsOwned s k x cs' o)

  -- A `put` of a store never leaves a sibling: after any calls, with or without a context, the
  -- new version is the only one of its key, whatever versions were received for it.
  pub put_replaces :
      (id : String) (calls : List (Call V)) (key : String) (value : V)
      (context : Option VectorClock)
      → get_versions (put (serve_all (init id) calls) key value context).0 key
        ≡ record {
          value = value;
          vector_clock = (put (serve_all (init id) calls) key value context).1;
        }
          ∷ []
  put_replaces id calls key value context =
      get_versions-put (serve_all (init id) calls) key value context
        (serve_all-IsOwned (init id) calls (init-IsOwned id))
