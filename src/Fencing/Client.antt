-- ===== src/Fencing/Client.antt =====
-- `Client` of fencing-tokens/fencing_tokens.py. The lock service and the server that a client calls
-- are passed in and handed back. `_held_tokens` refers to the token objects of the service.
pub mod Delayed
use ddia_implementations.Prelude.{
  ℕ, String, Bool, true, false, Option, none, some, string_key, nat_key, if◌then◌else◌,
}
use ddia_implementations.Dict
use ddia_implementations.Dict.{Dict}
use ddia_implementations.Fencing.Lock
use ddia_implementations.Fencing.Lock.{LockService, FencingToken, is_expired}
use ddia_implementations.Fencing.Resource
use ddia_implementations.Fencing.Resource.{FencedResourceServer, Reply, not_held, lock_expired}

pub record Client : Type 0 where
  pub client_id : String
  pub held_tokens : Dict String ℕ

-- A call that may raise `KeyError`; what was written before stays written.
pub data Outcome {ℓ} (A : Type ℓ) : Type ℓ where
  returns : A → Outcome A
  key_error : Outcome A

-- self._held_tokens.get(lock_name), the object
unfoldable pub held : Client → LockService → String → Option FencingToken
held c service lock_name = elim (Dict.get c.held_tokens lock_name) [
  | none ↦ none
  | some r ↦ Dict.get service.tokens r
]

abbrev pub remember : Client → String → Option ℕ → Client
remember c lock_name none = c
remember c lock_name (some token) = record c {
  held_tokens = Dict.put c.held_tokens lock_name token;
}

unfoldable pub acquire_lock :
    Client → LockService → String → ℕ → ℕ → Client × LockService × Option ℕ
acquire_lock c service lock_name current_time ttl =
    let (service', token) = Lock.acquire service lock_name c.client_id current_time ttl in
    (remember c lock_name token, service', token)

-- del self._held_tokens[lock_name]
unfoldable pub forget : Client → String → Client × Bool
forget c lock_name = elim (Dict.get c.held_tokens lock_name) [
  | none ↦ (c, false)
  | some _ ↦ (record c { held_tokens = Dict.remove c.held_tokens lock_name }, true)
]

unfoldable pub release_lock : Client → LockService → String → Client × LockService × Outcome Bool
unfolding forget
release_lock c service lock_name =
    let (service', result) = Lock.release service lock_name c.client_id in
    let (c', deleted) = forget c lock_name in
    if result
    then (c', service', if deleted then returns true else key_error)
    else (c, service', returns false)

-- `current_time is not None and token.is_expired(current_time)`
unfoldable pub is_past : FencingToken → Option ℕ → Bool
unfolding is_expired
is_past t none = false
is_past t (some now) = is_expired t now

unfoldable pub get_token : Client → LockService → String → Option ℕ → Client × Option FencingToken
unfolding is_past forget
get_token c service lock_name current_time = elim (held c service lock_name) [
  | none ↦ (c, none)
  | some t ↦ if is_past t current_time then ((forget c lock_name).0, none) else (c, some t)
]

module _ {V : Type 0} where
  unfoldable pub write_to_resource :
      Client
      → LockService
      → FencedResourceServer V
      → String
      → String
      → V
      → String
      → Option ℕ
      → Client × FencedResourceServer V × Reply
  unfolding is_past forget
  write_to_resource c service server resource key value lock_name current_time =
      elim (held c service lock_name) [
        | none ↦ (c, server, not_held lock_name)
        | some t ↦
            if is_past t current_time
            then ((forget c lock_name).0, server, lock_expired lock_name)
            else (let (server', reply) = Resource.write server resource key value t.token in
                (c, server', reply))
      ]
