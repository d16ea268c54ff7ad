-- ===== src/Fencing/Lock/Issue.antt =====
-- The numbers of the tokens: each is greater than all that were issued before.
use ddia_implementations.Prelude.{
  ℕ, ◌+◌, ◌≤◌, ◌≡◌, some, List, [], ◌∷◌, arith, Option-cases, inl, inr,
}
use mathlib.Core.Path.{subst}
use native.Mathlib.Nat.{le_refl}
use ddia_implementations.Fencing.Lock.{LockService, acquire, release, renew}
use ddia_implementations.Fencing.Lock.Requests.{
  Request, acquire_call, release_call, renew_call, serve, issued, issued_all,
}

-- Every element is below the next.
abbrev pub Increasing : ℕ → List ℕ → Type 0
Increasing n [] = Unit
Increasing n (x ∷ xs) = (n ≤ x) × Increasing (x + 1) xs

counter-serve-le : (s : LockService) (r : Request) → s.counter ≤ (serve s r).counter
unfolding serve acquire release renew
counter-serve-le s (acquire_call l c now ttl) = ground arith
counter-serve-le s (release_call l c) = ground arith
counter-serve-le s (renew_call l c now ttl) = ground arith

issued-counter :
    (s : LockService) (r : Request) (t : ℕ)
    → issued s r ≡ some t
    → (t ≡ s.counter) × ((serve s r).counter ≡ s.counter + 1)
unfolding issued serve acquire
issued-counter s (acquire_call l c now ttl) t h = ground arith
issued-counter s (release_call l c) t h = cc
issued-counter s (renew_call l c now ttl) t h = cc

Increasing-weaken : (m n : ℕ) (xs : List ℕ) → m ≤ n → Increasing n xs → Increasing m xs
Increasing-weaken m n [] h i = tt
Increasing-weaken m n (x ∷ xs) h i = (omega arith, i.1)

-- Whatever the calls, the tokens are issued in strictly increasing order, from the counter on.
pub issued_all-Increasing :
    (s : LockService) (rs : List Request) → Increasing s.counter (issued_all s rs)
unfolding issued_all
issued_all-Increasing s [] = tt
issued_all-Increasing s (r ∷ rs) = elim (Option-cases (issued s r)) [
  | inl e ↦
      rw e (Increasing-weaken _ _ _ (counter-serve-le s r) (issued_all-Increasing (serve s r) rs))
  | inr (t, e) ↦
      let (at, next) = issued-counter s r t e in
      rw (e, at)
        (
          le_refl s.counter,
          subst (λ n. Increasing n (issued_all (serve s r) rs)) next
              (issued_all-Increasing (serve s r) rs),
        )
]
