-- ===== src/Fencing/Lock.antt =====
-- `FencingToken` and `LockService` of fencing-tokens/fencing_tokens.py. A token object is shared
-- between the service and the client that holds it, and `renew` writes to it in place: tokens
-- live in a heap, under the number that `acquire` gives each of them.
pub mod Requests
pub mod Issue
pub mod Valid
pub mod Lease
use ddia_implementations.Prelude.{
  ℕ, ◌+◌, String, Bool, true, false, not, ◌&&◌, ◌||◌, Option, none, some, [], leb, ◌==◌, ◌!=◌,
  string_key, nat_key, if◌then◌else◌,
}
use ddia_implementations.Dict
use ddia_implementations.Dict.{Dict}

pub record FencingToken : Type 0 where
  pub token : ℕ
  pub lock_name : String
  pub client_id : String
  pub issued_at : ℕ
  pub ttl : ℕ

unfoldable pub is_expired : FencingToken → ℕ → Bool
is_expired t current_time = leb (t.issued_at + t.ttl) current_time

pub record LockService : Type 0 where
  pub counter : ℕ
  pub locks : Dict String ℕ
  pub tokens : Dict ℕ FencingToken

abbrev pub init : LockService
init = record { counter = 1; locks = []; tokens = [] }

-- self._locks.get(lock_name), the token that the entry refers to
unfoldable pub existing : LockService → String → Option FencingToken
existing s lock_name = elim (Dict.get s.locks lock_name) [
  | none ↦ none
  | some r ↦ Dict.get s.tokens r
]

-- the guard of `acquire`: another client holds the lock, and its lease has not run out
unfoldable pub is_taken : Option FencingToken → String → ℕ → Bool
unfolding is_expired
is_taken none client_id current_time = false
is_taken (some t) client_id current_time =
    not (is_expired t current_time) && t.client_id != client_id

unfoldable pub acquire : LockService → String → String → ℕ → ℕ → LockService × Option ℕ
unfolding is_taken
acquire s lock_name client_id current_time ttl =
    if is_taken (existing s lock_name) client_id current_time then (s, none) else (
      record {
        counter = s.counter + 1;
        locks = Dict.put s.locks lock_name s.counter;
        tokens = Dict.put s.tokens s.counter (record {
          token = s.counter;
          lock_name = lock_name;
          client_id = client_id;
          issued_at = current_time;
          ttl = ttl;
        });
      },
      some s.counter,
    )

-- the guard of `release`
unfoldable pub is_owner : Option FencingToken → String → Bool
is_owner none client_id = false
is_owner (some t) client_id = t.client_id == client_id

unfoldable pub release : LockService → String → String → LockService × Bool
unfolding is_owner
release s lock_name client_id =
    if is_owner (existing s lock_name) client_id
    then (record s { locks = Dict.remove s.locks lock_name }, true)
    else (s, false)

-- the writes to the token object, behind the guard of `renew`
unfoldable pub renewed : LockService → Option FencingToken → String → ℕ → ℕ → LockService × Bool
unfolding is_expired
renewed s none client_id current_time ttl = (s, false)
renewed s (some t) client_id current_time ttl =
    if t.client_id != client_id || is_expired t current_time then (s, false) else (
      record s {
        tokens = Dict.put s.tokens t.token (record t { issued_at = current_time; ttl = ttl });
      },
      true,
    )

unfoldable pub renew : LockService → String → String → ℕ → ℕ → LockService × Bool
unfolding renewed
renew s lock_name client_id current_time ttl =
    renewed s (existing s lock_name) client_id current_time ttl

-- the dict that `is_held` returns
pub record Holding : Type 0 where
  pub client_id : String
  pub token : ℕ
  pub expires_at : ℕ

unfoldable pub is_held : LockService → String → ℕ → Option Holding
unfolding is_expired
is_held s lock_name current_time = elim (existing s lock_name) [
  | none ↦ none
  | some t ↦
      if is_expired t current_time
      then none
      else some
          (record { client_id = t.client_id; token = t.token; expires_at = t.issued_at + t.ttl })
]
