-- ===== src/Sets.antt =====
-- Python's `set` of keys: a list without repetitions.
use ddia_implementations.Prelude.{
  ◌≡◌, Bool, false, ◌||◌, List, [], ◌∷◌, arith, ite, Key, ◌==◌, if◌then◌else◌, ◌&&◌, refl, not,
}

module _ {K : Type 0} ⦃e : Key K⦄ where
  -- x in s
  unfoldable pub member : K → List K → Bool
  member x [] = false
  member x (y ∷ s) = x == y || member x s

  -- s.add(x)
  unfoldable pub insert : K → List K → List K
  insert x s = if member x s then s else x ∷ s

  -- s.discard(x)
  unfoldable pub discard : K → List K → List K
  discard x [] = []
  discard x (y ∷ s) = ite (e.dec x y) (discard x s) (y ∷ discard x s)

  -- a | b
  unfoldable pub union : List K → List K → List K
  union [] b = b
  union (x ∷ a) b = insert x (union a b)

  -- a - b
  unfoldable pub minus : List K → List K → List K
  minus [] b = []
  minus (x ∷ a) b = let rest = minus a b in if member x b then rest else x ∷ rest

  pub member-insert : (x y : K) (s : List K) → member y (insert x s) ≡ (y == x || member y s)
  unfolding member insert
  member-insert x y s = ground arith

  pub member-discard :
      (x y : K) (s : List K) → member y (discard x s) ≡ ite (e.dec x y) false (member y s)
  unfolding member discard
  member-discard x y [] = ground arith
  member-discard x y (z ∷ s) = ground (arith, member-discard x y s)

  pub member-union : (x : K) (a b : List K) → member x (union a b) ≡ (member x a || member x b)
  unfolding union member
  member-union x [] b = refl
  member-union x (y ∷ a) b = ground (arith, member-insert y x (union a b), member-union x a b)

  pub member-minus :
      (x : K) (a b : List K) → member x (minus a b) ≡ (member x a && not (member x b))
  unfolding minus member
  member-minus x [] b = refl
  member-minus x (y ∷ a) b = ground (arith, member-minus x a b)
