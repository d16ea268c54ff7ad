-- ===== src/Crdts/Join.antt =====
-- The merges of conflict-free-replicated-data-types/crdts.py, as the readers see them.
use ddia_implementations.Prelude.{
  ℕ, ◌+◌, String, List, string_key, nat_key, [], ◌∷◌, get_or, max, true, false, arith, refl, ◌≡◌,
  ◌&&◌, ◌||◌, not, List-cases, ap, inl, inr, ◌≤◌, ◌-◌,
}
use ddia_implementations.Dict
use ddia_implementations.Dict.{Dict, get-put, get-remove, IsDistinct, put-IsDistinct}
use ddia_implementations.Sets
use ddia_implementations.Crdts.Counter
use ddia_implementations.Crdts.Counter.{GCounter, get_count, merge_counts, sum, value, increment}
use ddia_implementations.Crdts.Set.{
  OrSet, Tag, tag_key, tags_of, keys_of, merge_elements, is_empty, contains, add, remove, merge,
}

get_count-merge_counts :
    (a b : Dict String ℕ) (k : String)
    → IsDistinct b
    → get_count (merge_counts a b) k ≡ max (get_count a k) (get_count b k)
unfolding get_count merge_counts Dict.get
get_count-merge_counts a [] k h = ground arith
get_count-merge_counts a ((j, n) ∷ b) k (h, hs) = ground (
  arith,
  get_count-merge_counts (Dict.put a j (max (get_or (Dict.get a j) 0) n)) b k hs,
  get-put a j (max (get_or (Dict.get a j) 0) n) k,
)

merge_counts-IsDistinct : (a b : Dict String ℕ) → IsDistinct a → IsDistinct (merge_counts a b)
unfolding merge_counts
merge_counts-IsDistinct a [] h = h
merge_counts-IsDistinct a ((j, n) ∷ b) h =
    merge_counts-IsDistinct (Dict.put a j (max (get_count a j) n)) b
      (put-IsDistinct a j (max (get_count a j) n) h)

-- The merge of counters keeps the larger count of each replica, so that it does not matter in
-- which order or how often two counters are merged: merging is commutative, associative and
-- idempotent in each count, where the dictionaries have distinct keys, as in Python.
pub merge_laws :
    (a b c : GCounter) (k : String)
    → IsDistinct a.counts
    → IsDistinct b.counts
    → IsDistinct c.counts
    → (get_count (Counter.merge a b).counts k ≡ get_count (Counter.merge b a).counts k)
      × ((get_count (Counter.merge a (Counter.merge b c)).counts k
            ≡ get_count (Counter.merge (Counter.merge a b) c).counts k)
          × (get_count (Counter.merge a a).counts k ≡ get_count a.counts k))
unfolding Counter.merge
merge_laws a b c k ha hb hc =
    let m = get_count-merge_counts in
    (
      ground (arith, m a.counts b.counts k hb, m b.counts a.counts k ha),
      (
        ground (
          arith,
          m a.counts (merge_counts b.counts c.counts) k
              (merge_counts-IsDistinct b.counts c.counts hb),
          m b.counts c.counts k hc,
          m (merge_counts a.counts b.counts) c.counts k hc,
          m a.counts b.counts k hb,
        ),
        ground (arith, m a.counts a.counts k ha),
      ),
    )

sum-put :
    (d : Dict String ℕ) (k : String) (n : ℕ) → sum (Dict.put d k (get_count d k + n)) ≡ sum d + n
unfolding sum get_count Dict.put Dict.get
sum-put [] k n = ground arith
sum-put ((j, m) ∷ d) k n = ground (arith, sum-put d k n)

sum-merge_counts : (a b : Dict String ℕ) → sum a ≤ sum (merge_counts a b)
unfolding merge_counts
sum-merge_counts a [] = ground arith
sum-merge_counts a ((j, n) ∷ b) =
    let x : ℕ = max (get_count a j) n in
    ground (arith, sum-merge_counts (Dict.put a j x) b, sum-put a j (x - get_count a j))

-- The value of a counter only grows: an increment adds its amount, and a merge loses nothing.
pub value_grows :
    (a b : GCounter) (amount : ℕ)
    → (value (increment a amount) ≡ value a + amount) × (value a ≤ value (Counter.merge a b))
unfolding value increment Counter.merge
value_grows a b amount = (sum-put a.counts a.replica_id amount, sum-merge_counts a.counts b.counts)

member-merge_elements :
    (a b : Dict String (List Tag)) (ts : List Tag) (es : List String) (e : String) (t : Tag)
    → Sets.member t (tags_of (merge_elements a b ts es) e)
      ≡ (Sets.member e es && Sets.member t (Sets.minus (Sets.union (tags_of a e) (tags_of b e)) ts))
unfolding merge_elements Sets.member Dict.get
member-merge_elements a b ts [] e t = ground arith
member-merge_elements a b ts (j ∷ es) e t =
    let tags : List Tag = Sets.minus (Sets.union (tags_of a j) (tags_of b j)) ts in
    elim (string_key.dec e j) [
      | yes q ↦ elim (List-cases tags) [
        | inl n ↦ ground (arith, member-merge_elements a b ts es e t)
        | inr (x, (xs, n)) ↦ ground (arith, member-merge_elements a b ts es e t)
      ]
      | no q ↦ ground (arith, member-merge_elements a b ts es e t)
    ]

tags_of-absent :
    (d : Dict String (List Tag)) (e : String) → Sets.member e (keys_of d) ≡ false → tags_of d e ≡ []
unfolding tags_of keys_of Sets.member Dict.get
tags_of-absent [] e h = refl
tags_of-absent ((j, ts) ∷ d) e h = ground (arith, tags_of-absent d e)

-- A merge of sets has exactly the tags that one of them has and neither has removed.
pub member-merge :
    (a b : OrSet) (e : String) (t : Tag)
    → Sets.member t (tags_of (merge a b).elements e) ≡ (
        (Sets.member t (tags_of a.elements e) || Sets.member t (tags_of b.elements e))
        && not (Sets.member t a.tombstones || Sets.member t b.tombstones))
unfolding merge Sets.member
member-merge a b e t =
    let ts : List Tag = Sets.union a.tombstones b.tombstones in
    let es : List String = Sets.union (keys_of a.elements) (keys_of b.elements) in
    ground (
      arith,
      member-merge_elements a.elements b.elements ts es e t,
      Sets.member-minus t (Sets.union (tags_of a.elements e) (tags_of b.elements e)) ts,
      Sets.member-union t (tags_of a.elements e) (tags_of b.elements e),
      Sets.member-union t a.tombstones b.tombstones,
      Sets.member-union e (keys_of a.elements) (keys_of b.elements),
      absent a.elements,
      absent b.elements,
    )
  where
    absent :
        (d : Dict String (List Tag))
        → Sets.member e (keys_of d) ≡ false
        → Sets.member t (tags_of d e) ≡ false
    absent d h = ap (Sets.member t) (tags_of-absent d e h)

member-merge_tombstones :
    (a b : OrSet) (t : Tag)
    → Sets.member t (merge a b).tombstones
      ≡ (Sets.member t a.tombstones || Sets.member t b.tombstones)
unfolding merge
member-merge_tombstones a b t = Sets.member-union t a.tombstones b.tombstones

is_empty-member :
    (xs ys : List Tag)
    → ((t : Tag) → Sets.member t xs ≡ Sets.member t ys)
    → is_empty xs ≡ is_empty ys
unfolding Sets.member
is_empty-member [] [] h = refl
is_empty-member [] (y ∷ ys) h = ground (arith, h y)
is_empty-member (x ∷ xs) [] h = ground (arith, h x)
is_empty-member (x ∷ xs) (y ∷ ys) h = refl

-- Replicas converge: it does not matter for `contains` in which order sets are merged.
pub contains-merge :
    (a b c : OrSet) (e : String)
    → (contains (merge a b) e ≡ contains (merge b a) e)
      × (contains (merge a (merge b c)) e ≡ contains (merge (merge a b) c) e)
unfolding contains
contains-merge a b c e = (
  ap not (
      is_empty-member (tags_of (merge a b).elements e) (tags_of (merge b a).elements e)
        (λ t. ground (arith, member-merge a b e t, member-merge b a e t))),
  ap not (
      is_empty-member (tags_of (merge a (merge b c)).elements e)
        (tags_of (merge (merge a b) c).elements e)
        (λ t. ground (
          arith,
          member-merge a (merge b c) e t,
          member-merge b c e t,
          member-merge (merge a b) c e t,
          member-merge a b e t,
          member-merge_tombstones b c t,
          member-merge_tombstones a b t,
        ))),
)

not_empty : (ts : List Tag) (t : Tag) → Sets.member t ts ≡ true → not (is_empty ts) ≡ true
unfolding Sets.member
not_empty [] t h = ground arith
not_empty (x ∷ ts) t h = refl

add-member :
    (s : OrSet) (e : String)
    → Sets.member (s.replica_id, s.seq + 1) (tags_of (add s e).elements e) ≡ true
unfolding add tags_of
add-member s e =
    let old : List Tag = tags_of s.elements e in
    let t : Tag = (s.replica_id, s.seq + 1) in
    ground (arith, get-put s.elements e (Sets.insert t old) e, Sets.member-insert t t old)

add-tombstones : (s : OrSet) (e : String) → (add s e).tombstones ≡ s.tombstones
unfolding add
add-tombstones s e = refl

remove-tombstones :
    (s : OrSet) (e : String) (t : Tag)
    → Sets.member t s.tombstones ≡ false
    → Sets.member t (tags_of s.elements e) ≡ false
    → Sets.member t (remove s e).0.tombstones ≡ false
unfolding remove
remove-tombstones s e t h g =
    ground (arith, Sets.member-union t (tags_of s.elements e) s.tombstones)

-- An addition wins over a removal that has not seen it: when one replica adds an element under a
-- tag that is neither removed nor known elsewhere, and another one removes the element, the
-- merge of the two contains it.
pub add_wins :
    (a b : OrSet) (e : String)
    → Sets.member (a.replica_id, a.seq + 1) a.tombstones ≡ false
    → Sets.member (a.replica_id, a.seq + 1) b.tombstones ≡ false
    → Sets.member (a.replica_id, a.seq + 1) (tags_of b.elements e) ≡ false
    → contains (merge (add a e) (remove b e).0) e ≡ true
unfolding contains
add_wins a b e ha hb h =
    let t : Tag = (a.replica_id, a.seq + 1) in
    not_empty (tags_of (merge (add a e) (remove b e).0).elements e) t (
      ground (
        arith,
        member-merge (add a e) (remove b e).0 e t,
        add-member a e,
        add-tombstones a e,
        remove-tombstones b e t,
      ))
