-- ===== src/Fencing/Tests.antt =====
-- The locking theorems at concrete inputs: two clients, one lock, one resource.
use ddia_implementations.Prelude.{
  subst, ℕ, String, ◌≡◌, ◌≢◌, refl, none, some, List, [], ◌∷◌, arith, string_key, nat_key,
  string_dec, ℕ_discrete, ap, string_ne,
}
use ddia_implementations.Dict
use ddia_implementations.Fencing.Lock.{
  LockService, existing, acquire, is_held, init, release, renew,
}
use ddia_implementations.Fencing.Lock.Requests.{Request, acquire_call, renew_call, serve_all, serve}
use ddia_implementations.Fencing.Lock.Valid.{IsValid, init-IsValid, acquire-IsValid}
use ddia_implementations.Fencing.Lock.Lease.{acquire_excludes}
use ddia_implementations.Fencing.Resource.{
  FencedResourceServer, success, get_highest_token, write, read,
}
use ddia_implementations.Fencing.Resource.Stale.{write_all}
use ddia_implementations.Fencing.Client.{
  Client, held, acquire_lock, get_token, release_lock, write_to_resource, key_error,
}
use ddia_implementations.Fencing.Client.Delayed.{
  delayed_write_refused, release_lock-get_token_expired,
}

runs : Unit {0}
unfolding acquire release renew existing is_held get_highest_token serve serve_all Dict.get Dict.put
    Dict.remove string_dec ℕ_discrete write read write_all acquire_lock get_token release_lock
    write_to_resource held
runs = tt

abbrev first : LockService
first = record {
  counter = 2;
  locks = ("job", 1) ∷ [];
  tokens =
      (1, record { token = 1; lock_name = "job"; client_id = "a"; issued_at = 0; ttl = 10 }) ∷ [];
}

first-acquire : acquire init "job" "a" 0 10 ≡ (first, some 1)
unfolding runs
first-acquire = refl

first-IsValid : IsValid first
first-IsValid =
    subst (λ x. IsValid x.0) first-acquire (acquire-IsValid init init-IsValid "job" "a" 0 10)

abbrev a_then_b : List Request
a_then_b = renew_call "job" "b" 4 50 ∷ acquire_call "job" "b" 9 5 ∷ acquire_call "job" "b" 10 5 ∷ []

names_differ : ◌≢◌ {A = String} "b" "a"
names_differ = string_ne "b" "a" refl

acquire_excludes_example :
    let s' = serve_all (acquire init "job" "a" 0 10).0 (renew_call "job" "b" 4 50 ∷ []) in
    (acquire s' "job" "b" 9 5 ≡ (s', none))
    × (e : ℕ) × (is_held s' "job" 9 ≡ some (record { client_id = "a"; token = 1; expires_at = e }))
acquire_excludes_example =
    acquire_excludes init "job" "a" 0 10 1 (renew_call "job" "b" 4 50 ∷ []) init-IsValid
      (ap (λ x. x.1) first-acquire) (names_differ, tt) "b" 9 5 names_differ (omega arith)

abbrev server : FencedResourceServer ℕ
server = record { contents = []; highest_token = [] }

abbrev alice : Client
alice = record { client_id = "a"; held_tokens = ("job", 1) ∷ [] }

abbrev bob : Client
bob = record { client_id = "b"; held_tokens = [] }

abbrev bob_holding : Client
bob_holding = record { client_id = "b"; held_tokens = ("job", 2) ∷ [] }

-- the service after `b` took the lock at 12
abbrev second : LockService
second = record {
  counter = 3;
  locks = ("job", 2) ∷ [];
  tokens =
      (1, record { token = 1; lock_name = "job"; client_id = "a"; issued_at = 0; ttl = 10 })
      ∷ (2, record { token = 2; lock_name = "job"; client_id = "b"; issued_at = 12; ttl = 10 })
      ∷ [];
}

abbrev written : FencedResourceServer ℕ
written = record { contents = ("file", ("x", 7) ∷ []) ∷ []; highest_token = ("file", 2) ∷ [] }

delayed_write_refused_example :
    let answer = write_to_resource alice second written "file" "x" 8 "job" none in
    (answer.1 ≡ written) × (answer.2 ≢ success)
unfolding runs
delayed_write_refused_example =
    delayed_write_refused first alice bob "job" 1 12 10 2 server "file" "x" 7 {b' = bob_holding}
      {s' = second} {server' = written} first-IsValid refl (omega arith) refl refl [] [] "x" 8 none

release_lock-get_token_expired_example :
    let c' = (get_token alice first "job" (some 10)).0 in
    ((release_lock c' first "job").2 ≡ key_error)
    × (existing (release_lock c' first "job").1 "job" ≡ none)
unfolding runs
release_lock-get_token_expired_example =
    release_lock-get_token_expired alice first "job" 10
      (record { token = 1; lock_name = "job"; client_id = "a"; issued_at = 0; ttl = 10 }) refl refl
      refl (omega arith)
