-- ===== src/Fencing/Lock/Requests.antt =====
-- Sequences of calls to the lock service, by any clients.
use ddia_implementations.Prelude.{ℕ, String, Option, none, some, List, [], ◌∷◌}
use ddia_implementations.Fencing.Lock.{LockService, acquire, release, renew}

pub data Request : Type 0 where
  acquire_call : String → String → ℕ → ℕ → Request
  release_call : String → String → Request
  renew_call : String → String → ℕ → ℕ → Request

-- the state after a call
unfoldable pub serve : LockService → Request → LockService
serve s (acquire_call lock_name client_id now ttl) = (acquire s lock_name client_id now ttl).0
serve s (release_call lock_name client_id) = (release s lock_name client_id).0
serve s (renew_call lock_name client_id now ttl) = (renew s lock_name client_id now ttl).0

-- the token that a call issues
unfoldable pub issued : LockService → Request → Option ℕ
issued s (acquire_call lock_name client_id now ttl) = (acquire s lock_name client_id now ttl).1
issued s _ = none

unfoldable pub serve_all : LockService → List Request → LockService
serve_all s [] = s
serve_all s (r ∷ rs) = serve_all (serve s r) rs

abbrev pub cons_some {ℓ} : {A : Type ℓ} → Option A → List A → List A
cons_some none xs = xs
cons_some (some x) xs = x ∷ xs

-- the tokens that a sequence of calls issues, in order
unfoldable pub issued_all : LockService → List Request → List ℕ
issued_all s [] = []
issued_all s (r ∷ rs) = cons_some (issued s r) (issued_all (serve s r) rs)
