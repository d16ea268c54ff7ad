-- ===== src/Crdts/Set.antt =====
-- `ORSet` of conflict-free-replicated-data-types/crdts.py. A tag is a pair of a replica and a number.
use ddia_implementations.Prelude.{
  ℕ, ◌+◌, String, Bool, List, string_key, nat_key, Key, [], ◌∷◌, get_or, max, true, false, ◌≡◌,
  if◌then◌else◌, not, ap,
}
use ddia_implementations.Dict
use ddia_implementations.Dict.{Dict}
use ddia_implementations.Sets

abbrev pub Tag : Type 0
Tag = String × ℕ

unfoldable pub pair_dec : (a b : Tag) → Dec (a ≡ b)
pair_dec (x, n) (y, m) = elim (string_key.dec x y) [
  | yes e ↦ elim (nat_key.dec n m) [ yes q ↦ yes cc | no q ↦ no (λ h. q (ap (λ (t : Tag). t.1) h)) ]
  | no e ↦ no (λ h. e (ap (λ (t : Tag). t.0) h))
]

instance abbrev pub tag_key : Key Tag
tag_key = record { dec = pair_dec }

pub record OrSet : Type 0 where
  pub replica_id : String
  pub seq : ℕ
  pub elements : Dict String (List Tag)
  pub tombstones : List Tag

abbrev pub init : String → OrSet
init id = record { replica_id = id; seq = 0; elements = []; tombstones = [] }

unfoldable pub tags_of : Dict String (List Tag) → String → List Tag
tags_of d element = get_or (Dict.get d element) []

unfoldable pub add : OrSet → String → OrSet
unfolding tags_of
add s element = record s {
  seq = s.seq + 1;
  elements =
      Dict.put s.elements element
        (Sets.insert (s.replica_id, s.seq + 1) (tags_of s.elements element));
}

abbrev pub is_empty : List Tag → Bool
is_empty [] = true
is_empty (t ∷ ts) = false

unfoldable pub remove : OrSet → String → OrSet × Bool
unfolding tags_of
remove s element = if is_empty (tags_of s.elements element) then (s, false) else (
  record s {
    tombstones = Sets.union (tags_of s.elements element) s.tombstones;
    elements = Dict.remove s.elements element;
  },
  true,
)

unfoldable pub contains : OrSet → String → Bool
unfolding tags_of
contains s element = not (is_empty (tags_of s.elements element))

unfoldable pub keys_of : Dict String (List Tag) → List String
keys_of [] = []
keys_of ((e, ts) ∷ d) = e ∷ keys_of d

-- the loop of `merge` over all elements
unfoldable pub merge_elements :
    Dict String (List Tag)
    → Dict String (List Tag)
    → List Tag
    → List String
    → Dict String (List Tag)
unfolding tags_of
merge_elements a b tombstones [] = []
merge_elements a b tombstones (e ∷ es) =
    let rest = merge_elements a b tombstones es in
    let tags = Sets.minus (Sets.union (tags_of a e) (tags_of b e)) tombstones in
    if is_empty tags then rest else (e, tags) ∷ rest

unfoldable pub merge : OrSet → OrSet → OrSet
unfolding merge_elements keys_of
merge s other =
    let tombstones = Sets.union s.tombstones other.tombstones in
    record s {
      seq = max s.seq other.seq;
      elements =
          merge_elements s.elements other.elements tombstones
            (Sets.union (keys_of s.elements) (keys_of other.elements));
      tombstones = tombstones;
    }
