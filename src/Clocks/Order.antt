-- ===== src/Clocks/Order.antt =====
-- The order of the clocks of vector-clocks/vector_clock.py.
use ddia_implementations.Prelude.{
  ℕ, ◌+◌, String, Bool, List, string_key, ◌≡◌, ◌<◌, ite, ◌||◌, false, if◌then◌else◌, true, ◌≤◌,
  arith, ◌∷◌, max, [], refl, ◌&&◌, Bool-cases, ◌⊎◌, not, inl, ltb, inr, ap,
}
use ddia_implementations.Dict
use ddia_implementations.Dict.{Dict, get-put}
use ddia_implementations.Sets
use ddia_implementations.Clocks.Clock.{
  VectorClock, get, strip, increment, keys, maxima, merge, all_ge, dominates, all_keys, Comparison,
  compare_from, compare, equal, after, before, concurrent,
}

-- No counter of a clock is 0: what `__init__` sees to.
abbrev pub IsPositive : Dict String ℕ → Type 0
IsPositive [] = Unit
IsPositive ((k, v) ∷ d) = (0 < v) × IsPositive d

pub strip-IsPositive : (d : Dict String ℕ) → IsPositive (strip d)
unfolding strip
strip-IsPositive [] = tt
strip-IsPositive ((k, v) ∷ d) = ground (arith, strip-IsPositive d)

pub strip-positive : (d : Dict String ℕ) → IsPositive d → strip d ≡ d
unfolding strip
strip-positive [] h = refl
strip-positive ((k, v) ∷ d) (h, hs) = ground (arith, strip-positive d hs)

pub put-IsPositive :
    (d : Dict String ℕ) (k : String) (v : ℕ) → IsPositive d → 0 < v → IsPositive (Dict.put d k v)
unfolding Dict.put
put-IsPositive [] k v h p = (p, tt)
put-IsPositive ((j, w) ∷ d) k v (h, hs) p = ground (arith, put-IsPositive d k v hs p)

pub get-increment :
    (c : VectorClock) (n k : String)
    → IsPositive c
    → get (increment c n) k ≡ ite (string_key.dec n k) (get c n + 1) (get c k)
unfolding get increment
get-increment c n k h = ground (
  arith,
  strip-positive (Dict.put c n (get c n + 1)) (put-IsPositive c n (get c n + 1) h (omega arith)),
  get-put c n (get c n + 1) k,
)

pub get-absent : (c : VectorClock) (k : String) → Sets.member k (keys c) ≡ false → get c k ≡ 0
unfolding get keys Sets.member Dict.get
get-absent [] k h = refl
get-absent ((j, v) ∷ c) k h = ground (arith, get-absent c k)

get-empty_lem : (k : String) → get [] k ≡ 0
unfolding get Dict.get
get-empty_lem k = refl

get-cons :
    (j : String) (v : ℕ) (d : VectorClock) (k : String)
    → get ((j, v) ∷ d) k ≡ ite (string_key.dec j k) v (get d k)
unfolding get Dict.get
get-cons j v d k = ground arith

pub get-maxima :
    (a b : VectorClock) (ks : List String) (k : String)
    → get (strip (maxima a b ks)) k ≡ (if Sets.member k ks then max (get a k) (get b k) else 0)
unfolding strip maxima Sets.member
get-maxima a b [] k = get-empty_lem k
get-maxima a b (j ∷ ks) k =
    ground
      (arith, get-cons j (max (get a j) (get b j)) (strip (maxima a b ks)) k, get-maxima a b ks k)

-- the counters of a merge are the larger ones
pub get-merge : (a b : VectorClock) (k : String) → get (merge a b) k ≡ max (get a k) (get b k)
unfolding merge all_keys
get-merge a b k = ground (
  arith,
  get-maxima a b (Sets.union (keys a) (keys b)) k,
  Sets.member-union k (keys a) (keys b),
  get-absent a k,
  get-absent b k,
)

all_ge-lem :
    (a b : VectorClock) (ks : List String) (k : String)
    → all_ge a b ks ≡ true
    → Sets.member k ks ≡ true
    → get b k ≤ get a k
unfolding all_ge Sets.member
all_ge-lem a b [] k h m = ground arith
all_ge-lem a b (j ∷ ks) k h m = ground (arith, all_ge-lem a b ks k)

all_ge-intro :
    (a b : VectorClock) (ks : List String)
    → ((k : String) → get b k ≤ get a k)
    → all_ge a b ks ≡ true
unfolding all_ge
all_ge-intro a b [] h = refl
all_ge-intro a b (j ∷ ks) h = ground (arith, all_ge-intro a b ks h, h j)

pub dominates-get : (a b : VectorClock) (k : String) → dominates a b ≡ true → get b k ≤ get a k
unfolding dominates all_keys
dominates-get a b k h = ground (
  arith,
  all_ge-lem a b (Sets.union (keys a) (keys b)) k,
  Sets.member-union k (keys a) (keys b),
  get-absent b k,
)

pub dominates-intro :
    (a b : VectorClock) → ((k : String) → get b k ≤ get a k) → dominates a b ≡ true
unfolding dominates
dominates-intro a b h = all_ge-intro a b (all_keys a b) h

-- A merge is the least clock that dominates both: it dominates each of them, and every clock that
-- dominates both dominates it.
pub merge_least :
    (a b c : VectorClock)
    → (dominates (merge a b) a ≡ true)
      × ((dominates (merge a b) b ≡ true)
          × (dominates c (merge a b) ≡ (dominates c a && dominates c b)))
merge_least a b c = (
  dominates-intro (merge a b) a (λ k. ground (arith, get-merge a b k)),
  (
    dominates-intro (merge a b) b (λ k. ground (arith, get-merge a b k)),
    least (Bool-cases (dominates c a)) (Bool-cases (dominates c b))
        (Bool-cases (dominates c (merge a b))),
  ),
)
  where
    below : dominates c (merge a b) ≡ true → (dominates c a ≡ true) × (dominates c b ≡ true)
    below h = (
      dominates-intro c a (λ k. ground (arith, get-merge a b k, dominates-get c (merge a b) k h)),
      dominates-intro c b (λ k. ground (arith, get-merge a b k, dominates-get c (merge a b) k h)),
    )

    above : dominates c a ≡ true → dominates c b ≡ true → dominates c (merge a b) ≡ true
    above h h' =
        dominates-intro c (merge a b)
          (λ k. ground (arith, get-merge a b k, dominates-get c a k h, dominates-get c b k h'))

    least :
        ((dominates c a ≡ true) ⊎ (dominates c a ≡ false))
        → ((dominates c b ≡ true) ⊎ (dominates c b ≡ false))
        → ((dominates c (merge a b) ≡ true) ⊎ (dominates c (merge a b) ≡ false))
        → dominates c (merge a b) ≡ (dominates c a && dominates c b)
    least x y z = ground (arith, below, above)

-- the result of a comparison by the two directions of `dominates`
abbrev pub verdict : Bool → Bool → Comparison
verdict true true = equal
verdict true false = after
verdict false true = before
verdict false false = concurrent

compare_from-lem :
    (a b : VectorClock) (ks : List String) (less greater : Bool)
    → (less && greater) ≡ false
    → compare_from a b ks less greater
      ≡ verdict (not less && all_ge a b ks) (not greater && all_ge b a ks)
unfolding compare_from all_ge
compare_from-lem a b [] less greater h = ground arith
compare_from-lem a b (k ∷ ks) less greater h = ground (
  arith,
  compare_from-lem a b ks (ltb (get a k) (get b k) || less) (ltb (get b k) (get a k) || greater),
)

all_ge-same : (a b : VectorClock) → all_ge a b (all_keys a b) ≡ dominates a b
unfolding dominates
all_ge-same a b = refl

all_ge-other : (a b : VectorClock) → all_ge b a (all_keys a b) ≡ dominates b a
unfolding all_keys
all_ge-other a b = elim (Bool-cases (dominates b a)) [
  | inl h ↦ ground (arith, all_ge-intro b a (all_keys a b) (λ k. dominates-get b a k h))
  | inr h ↦ elim (Bool-cases (all_ge b a (all_keys a b))) [
    | inl g ↦ ground (
      arith,
      dominates-intro b a (λ k. ground (
        arith,
        all_ge-lem b a (Sets.union (keys a) (keys b)) k g,
        Sets.member-union k (keys a) (keys b),
        get-absent a k,
      )),
    )
    | inr g ↦ ground arith
  ]
]

-- `compare` says what the two directions of `dominates` say: EQUAL where each clock dominates the
-- other, AFTER and BEFORE where only the first or only the second does, else CONCURRENT.
pub compare-dominates : (a b : VectorClock) → compare a b ≡ verdict (dominates a b) (dominates b a)
unfolding compare
compare-dominates a b =
    ground (
      arith,
      compare_from-lem a b (all_keys a b) false false refl,
      all_ge-other a b,
      all_ge-same a b,
    )

pub dominates_trans :
    (a b c : VectorClock) → dominates a b ≡ true → dominates b c ≡ true → dominates a c ≡ true
dominates_trans a b c h g =
    dominates-intro a c (λ k. ground (arith, dominates-get a b k h, dominates-get b c k g))

pub increment-IsPositive : (c : VectorClock) (n : String) → IsPositive (increment c n)
unfolding increment
increment-IsPositive c n = strip-IsPositive (Dict.put c n (get c n + 1))

pub merge-IsPositive : (a b : VectorClock) → IsPositive (merge a b)
unfolding merge
merge-IsPositive a b = strip-IsPositive (maxima a b (all_keys a b))

pub increment-dominates :
    (c : VectorClock) (n : String) → IsPositive c → dominates (increment c n) c ≡ true
increment-dominates c n h = dominates-intro (increment c n) c (λ k. elim (string_key.dec n k) [
  | yes e ↦ ground (arith, get-increment c n k h, ap (get c) e)
  | no ne ↦ ground (arith, get-increment c n k h)
])
