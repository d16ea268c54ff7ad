-- ===== src/Prelude/Lists.antt =====
-- Lists measured and indexed by native numbers, under the library's names.
use Prim.Native.Nat.{ℕ, zero, suc, ◌+◌, ◌-◌, ◌≤◌, ◌<◌}
use mathlib.Core.Path.{◌≡◌, refl, ap, sym, ◌∙◌}
use mathlib.Core.List.{List, [], ◌∷◌, ◌++◌}
use mathlib.Core.Option.{Option, none, some}
use native.Mathlib.Omega.{arith}

module _ {ℓ} {A : Type ℓ} where
  abbrev pub length : List A → ℕ
  length [] = 0
  length (x ∷ xs) = suc (length xs)

  abbrev pub get_elem? : List A → ℕ → Option A
  get_elem? [] i = none
  get_elem? (x ∷ xs) zero = some x
  get_elem? (x ∷ xs) (suc i) = get_elem? xs i

  abbrev pub take : ℕ → List A → List A
  take zero xs = []
  take (suc n) [] = []
  take (suc n) (x ∷ xs) = x ∷ take n xs

  abbrev pub drop : ℕ → List A → List A
  drop zero xs = xs
  drop (suc n) [] = []
  drop (suc n) (x ∷ xs) = drop n xs

  pub length-append : (xs ys : List A) → length (xs ++ ys) ≡ length xs + length ys
  length-append [] ys = omega arith
  length-append (x ∷ xs) ys = omega (arith, length-append xs ys)

  -- A predicate by recursion computes to tuples, which the tactics read and build.
  abbrev pub All {κ} : (A → Type κ) → List A → Type κ
  All P [] = Unit
  All P (x ∷ xs) = P x × All P xs

  pub All-append {κ} : (P : A → Type κ) (xs ys : List A) → All P xs → All P ys → All P (xs ++ ys)
  All-append P [] ys hx hy = hy
  All-append P (x ∷ xs) ys hx hy = (hx.0, All-append P xs ys hx.1 hy)

  pub get_elem?-take :
      (n : ℕ) (xs : List A) (j : ℕ) → j < n → get_elem? (take n xs) j ≡ get_elem? xs j
  get_elem?-take zero xs j h = absurd (omega arith)
  get_elem?-take (suc n) [] j h = refl
  get_elem?-take (suc n) (x ∷ xs) zero h = refl
  get_elem?-take (suc n) (x ∷ xs) (suc j) h = get_elem?-take n xs j (omega arith)

  pub length-take : (n : ℕ) (xs : List A) → n ≤ length xs → length (take n xs) ≡ n
  length-take zero xs h = refl
  length-take (suc n) [] h = absurd (omega arith)
  length-take (suc n) (x ∷ xs) h = omega (arith, length-take n xs)

  pub get_elem?-append :
      (xs ys : List A) (j : ℕ) → j < length xs → get_elem? (xs ++ ys) j ≡ get_elem? xs j
  get_elem?-append [] ys j h = absurd (omega arith)
  get_elem?-append (x ∷ xs) ys zero h = refl
  get_elem?-append (x ∷ xs) ys (suc j) h = get_elem?-append xs ys j (omega arith)

  -- The first element past the end of the left part.
  pub get_elem?-append_end :
      (xs : List A) (y : A) (j : ℕ) → j ≡ length xs → get_elem? (xs ++ y ∷ []) j ≡ some y
  get_elem?-append_end [] y zero h = refl
  get_elem?-append_end [] y (suc j) h = absurd (omega arith)
  get_elem?-append_end (x ∷ xs) y zero h = absurd (omega arith)
  get_elem?-append_end (x ∷ xs) y (suc j) h = get_elem?-append_end xs y j (omega arith)

  pub get_elem?-lt : (xs : List A) (j : ℕ) (a : A) → get_elem? xs j ≡ some a → j < length xs
  get_elem?-lt [] j a h = cc
  get_elem?-lt (x ∷ xs) zero a h = omega arith
  get_elem?-lt (x ∷ xs) (suc j) a h = omega (arith, get_elem?-lt xs j a h)

  pub get_elem?-none : (xs : List A) (j : ℕ) → get_elem? xs j ≡ none → length xs ≤ j
  get_elem?-none [] j h = omega arith
  get_elem?-none (x ∷ xs) zero h = cc
  get_elem?-none (x ∷ xs) (suc j) h = omega (arith, get_elem?-none xs j h)

  pub get_elem?-ge : (xs : List A) (j : ℕ) → length xs ≤ j → get_elem? xs j ≡ none
  get_elem?-ge [] j h = refl
  get_elem?-ge (x ∷ xs) zero h = absurd (omega arith)
  get_elem?-ge (x ∷ xs) (suc j) h = get_elem?-ge xs j (omega arith)

  pub take-append : (h g : List A) (n : ℕ) → n ≤ length h → take n (h ++ g) ≡ take n h
  take-append h g zero l = refl
  take-append [] g (suc n) l = absurd (omega arith)
  take-append (x ∷ h) g (suc n) l = ap (λ t. x ∷ t) (take-append h g n (omega arith))

  pub take-all : (h : List A) (n : ℕ) → length h ≤ n → take n h ≡ h
  take-all [] zero l = refl
  take-all [] (suc n) l = refl
  take-all (x ∷ h) zero l = absurd (omega arith)
  take-all (x ∷ h) (suc n) l = ap (λ t. x ∷ t) (take-all h n (omega arith))

  pub take-drop : (h : List A) (n : ℕ) → take n h ++ drop n h ≡ h
  take-drop h zero = refl
  take-drop [] (suc n) = refl
  take-drop (x ∷ h) (suc n) = ap (λ t. x ∷ t) (take-drop h n)

  pub drop-nil : (n : ℕ) → drop n [] ≡ []
  drop-nil zero = refl
  drop-nil (suc n) = refl

  pub drop-drop : (h : List A) (n m k : ℕ) → n + m ≡ k → drop m (drop n h) ≡ drop k h
  drop-drop h zero m k e = ap (λ j. drop j h) (omega (arith, e))
  drop-drop [] (suc n) m k e = drop-nil m ∙ sym (drop-nil k)
  drop-drop (x ∷ h) (suc n) m zero e = absurd (omega arith)
  drop-drop (x ∷ h) (suc n) m (suc k) e = drop-drop h n m k (omega arith)

  pub length-drop : (h : List A) (n : ℕ) → length (drop n h) ≡ length h - n
  length-drop h zero = omega arith
  length-drop [] (suc n) = omega arith
  length-drop (x ∷ h) (suc n) = omega (arith, length-drop h n)

  pub drop-append : (h g : List A) (n : ℕ) → n ≤ length h → drop n (h ++ g) ≡ drop n h ++ g
  drop-append h g zero l = refl
  drop-append [] g (suc n) l = absurd (omega arith)
  drop-append (x ∷ h) g (suc n) l = drop-append h g n (omega arith)

  -- what stands in front of a list, and what follows it
  pub take-front : (xs ys : List A) (n : ℕ) → length xs ≡ n → take n (xs ++ ys) ≡ xs
  take-front [] ys zero e = refl
  take-front [] ys (suc n) e = absurd (omega arith)
  take-front (x ∷ xs) ys zero e = absurd (omega arith)
  take-front (x ∷ xs) ys (suc n) e = ap (λ t. x ∷ t) (take-front xs ys n (omega arith))

  pub drop-front : (xs ys : List A) (n : ℕ) → length xs ≡ n → drop n (xs ++ ys) ≡ ys
  drop-front [] ys zero e = refl
  drop-front [] ys (suc n) e = absurd (omega arith)
  drop-front (x ∷ xs) ys zero e = absurd (omega arith)
  drop-front (x ∷ xs) ys (suc n) e = drop-front xs ys n (omega arith)

  pub append_assoc : (xs ys zs : List A) → (xs ++ ys) ++ zs ≡ xs ++ (ys ++ zs)
  append_assoc [] ys zs = refl
  append_assoc (x ∷ xs) ys zs = ap (λ t. x ∷ t) (append_assoc xs ys zs)

  pub append-nil : (xs : List A) → xs ++ [] ≡ xs
  append-nil [] = refl
  append-nil (x ∷ xs) = ap (λ t. x ∷ t) (append-nil xs)

  pub drop-take : (xs : List A) (n m k : ℕ) → n + m ≡ k → drop n (take k xs) ≡ take m (drop n xs)
  drop-take xs zero m k e = ap (λ j. take j xs) (omega (arith, e))
  drop-take [] (suc n) m zero e = absurd (omega arith)
  drop-take [] (suc n) zero (suc k) e = refl
  drop-take [] (suc n) (suc m) (suc k) e = refl
  drop-take (x ∷ xs) (suc n) m zero e = absurd (omega arith)
  drop-take (x ∷ xs) (suc n) m (suc k) e = drop-take xs n m k (omega arith)

  pub take-past :
      (xs ys : List A) (n m k : ℕ) → length xs ≡ n → n + m ≡ k → take k (xs ++ ys) ≡ xs ++ take m ys
  take-past [] ys zero m k e f = ap (λ j. take j ys) (omega (arith, f))
  take-past [] ys (suc n) m k e f = absurd (omega arith)
  take-past (x ∷ xs) ys zero m k e f = absurd (omega arith)
  take-past (x ∷ xs) ys (suc n) m zero e f = absurd (omega arith)
  take-past (x ∷ xs) ys (suc n) m (suc k) e f =
      ap (λ t. x ∷ t) (take-past xs ys n m k (omega arith) (omega arith))

  pub All-take {κ} : (P : A → Type κ) (k : ℕ) (xs : List A) → All P xs → All P (take k xs)
  All-take P zero xs h = tt
  All-take P (suc k) [] h = tt
  All-take P (suc k) (x ∷ xs) h = (h.0, All-take P k xs h.1)
