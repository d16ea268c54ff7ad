-- ===== src/Dict.antt =====
-- Python's `dict`: an association list in insertion order. A write to a present key keeps its place.
use ddia_implementations.Prelude.{
  ◌≡◌, refl, Option, none, some, List, [], ◌∷◌, arith, ite, Key, ◌≢◌, ◌⊎◌, inl, inr,
}

abbrev pub Dict {ℓ} : Type ℓ → Type ℓ → Type ℓ
Dict K V = List (K × V)

module _ {ℓ} {K V : Type ℓ} ⦃e : Key K⦄ where
  -- d.get(k)
  unfoldable pub get : Dict K V → K → Option V
  get [] k = none
  get ((j, v) ∷ d) k = ite (e.dec j k) (some v) (get d k)

  -- d[k] = v
  unfoldable pub put : Dict K V → K → V → Dict K V
  put [] k v = (k, v) ∷ []
  put ((j, w) ∷ d) k v = ite (e.dec j k) ((j, v) ∷ d) ((j, w) ∷ put d k v)

  -- d.pop(k, None), del d[k]
  unfoldable pub remove : Dict K V → K → Dict K V
  remove [] k = []
  remove ((j, w) ∷ d) k = ite (e.dec j k) (remove d k) ((j, w) ∷ remove d k)

  pub get-put :
      (d : Dict K V) (k : K) (v : V) (j : K)
      → get (put d k v) j ≡ ite (e.dec k j) (some v) (get d j)
  unfolding get put
  get-put [] k v j = refl
  get-put ((i, w) ∷ d) k v j = ground (arith, get-put d k v j)

  pub get-remove : (d : Dict K V) (k j : K) → get (remove d k) j ≡ ite (e.dec k j) none (get d j)
  unfolding get remove
  get-remove [] k j = ground arith
  get-remove ((i, w) ∷ d) k j = ground (arith, get-remove d k j)

module _ {ℓ} {K V : Type ℓ} ⦃e : Key K⦄ where
  pub get-cons_none :
      (k : K) (v : V) (d : Dict K V) (j : K)
      → get ((k, v) ∷ d) j ≡ none
      → (k ≢ j) × (get d j ≡ none)
  unfolding get
  get-cons_none k v d j h = ground arith

  pub get-cons_some :
      (k : K) (v : V) (d : Dict K V) (j : K) (w : V)
      → get ((k, v) ∷ d) j ≡ some w
      → ((k ≡ j) × (v ≡ w)) ⊎ ((k ≢ j) × (get d j ≡ some w))
  unfolding get
  get-cons_some k v d j w h = elim (e.dec k j) [
    | yes p ↦ inl (p, ground arith)
    | no p ↦ inr (p, ground arith)
  ]

pub get-empty {ℓ} : {K V : Type ℓ} ⦃e : Key K⦄ (k : K) → get {V = V} [] k ≡ none
unfolding get
get-empty k = refl

pub ruleset dict_laws = (get-empty, get-put, get-remove)

-- No key stands twice, as in every `dict`.
abbrev pub IsDistinct {ℓ} : {K V : Type ℓ} ⦃e : Key K⦄ → Dict K V → Type ℓ
IsDistinct [] = Unit
IsDistinct ((k, v) ∷ d) = (get d k ≡ none) × IsDistinct d

pub put-IsDistinct {ℓ} :
    {K V : Type ℓ} ⦃e : Key K⦄ (d : Dict K V) (k : K) (v : V)
    → IsDistinct d
    → IsDistinct (put d k v)
unfolding put get
put-IsDistinct [] k v h = (refl, tt)
put-IsDistinct ⦃e⦄ ((j, w) ∷ d) k v (h, hs) = elim (e.dec j k) [
  | yes q ↦ ground arith
  | no q ↦ ground (arith, get-put d k v j, put-IsDistinct d k v hs)
]
