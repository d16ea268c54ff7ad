-- ===== src/Fencing/Client/Delayed.antt =====
-- A client that acts on a lock it has lost: the delayed write of fencing-tokens, and a release after
-- the client dropped the expired token.
use ddia_implementations.Prelude.{
  subst, ℕ, ◌+◌, ◌≤◌, ◌<◌, String, ◌≡◌, ◌≢◌, Option, none, some, List, arith, Option-cases, inl,
  inr, string_key, nat_key, ap, sym, ◌∙◌,
}
use ddia_implementations.Dict
use ddia_implementations.Dict.{get-put, get-remove}
use ddia_implementations.Fencing.Lock.{
  LockService, FencingToken, existing, is_expired, release, acquire,
}
use ddia_implementations.Fencing.Lock.Requests.{Request, serve_all}
use ddia_implementations.Fencing.Lock.Valid.{IsValid, serve_all-IsValid, acquire-IsValid}
use ddia_implementations.Fencing.Resource
use ddia_implementations.Fencing.Resource.{FencedResourceServer, success, get_highest_token}
use ddia_implementations.Fencing.Resource.Stale.{WriteCall, write_all, write_overtaken}
use ddia_implementations.Fencing.Client.{
  Client, held, acquire_lock, release_lock, get_token, write_to_resource, key_error,
}

acquire_lock-held :
    (b : Client) (s : LockService) (l : String) (now ttl tb : ℕ)
    → (acquire_lock b s l now ttl).2 ≡ some tb
    → (Dict.get (acquire_lock b s l now ttl).0.held_tokens l ≡ some tb) × (tb ≡ s.counter)
unfolding acquire_lock acquire
acquire_lock-held b s l now ttl tb h = grind (arith, get-put)

acquire_lock-IsValid :
    (b : Client) (s : LockService) (l : String) (now ttl : ℕ)
    → IsValid s
    → IsValid (acquire_lock b s l now ttl).1
unfolding acquire_lock
acquire_lock-IsValid b s l now ttl v = acquire-IsValid s v l b.client_id now ttl

module _ {V : Type 0} where
  -- A write that succeeds carries the number of the held token.
  write_to_resource-success :
      (c : Client) (s : LockService) (server : FencedResourceServer V) (r k : String) (v : V)
      (l : String) (time : Option ℕ)
      → IsValid s
      → (n : ℕ) → Dict.get c.held_tokens l ≡ some n
      → (write_to_resource c s server r k v l time).2 ≡ success
      → ((write_to_resource c s server r k v l time).1 ≡ (Resource.write server r k v n).0)
        × ((Resource.write server r k v n).1 ≡ success)
  unfolding write_to_resource held
  write_to_resource-success c s server r k v l time valid n e h =
      elim (Option-cases (Dict.get s.tokens n)) [
        | inl missing ↦ ground arith
        | inr (t, found) ↦ let num = (valid.fresh n t found).1 in ground arith
      ]

  write_to_resource-refused :
      (c : Client) (s : LockService) (server : FencedResourceServer V) (r k : String) (v : V)
      (l : String) (time : Option ℕ)
      → IsValid s
      → (n : ℕ) → Dict.get c.held_tokens l ≡ some n
      → Resource.write server r k v n ≡ (server, Resource.stale n (get_highest_token server r))
      → ((write_to_resource c s server r k v l time).1 ≡ server)
        × ((write_to_resource c s server r k v l time).2 ≢ success)
  unfolding write_to_resource held
  write_to_resource-refused c s server r k v l time valid n e h =
      elim (Option-cases (Dict.get s.tokens n)) [
        | inl missing ↦ ground arith
        | inr (t, found) ↦ let num = (valid.fresh n t found).1 in ground arith
      ]

  -- Client `a` holds a token of lock `l`. Client `b` acquires `l` afterwards and writes to a
  -- resource with success. Then, whatever calls the service and whatever writes the server have
  -- had since, a write of `a` to that resource under its token does not succeed and does not change
  -- the server, with or without the current time in hand.
  pub delayed_write_refused :
      (s : LockService) (a b : Client) (l : String) (old now ttl tb : ℕ)
      (server : FencedResourceServer V) (r k : String) (v : V) {b' : Client} {s' : LockService}
      {server' : FencedResourceServer V}
      → IsValid s
      → Dict.get a.held_tokens l ≡ some old
      → old < s.counter
      → acquire_lock b s l now ttl ≡ (b', s', some tb)
      → write_to_resource b' s' server r k v l none ≡ (b', server', success)
      → (rs : List Request) (ws : List (WriteCall V)) (k' : String) (v' : V) (time : Option ℕ)
      → let later = write_all server' ws in
        let answer = write_to_resource a (serve_all s' rs) later r k' v' l time in
        (answer.1 ≡ later) × (answer.2 ≢ success)
  delayed_write_refused s a b l old now ttl tb server r k v {b'} {s'} {server'} valid ha low got
        done rs ws k' v' time =
      let valid' : IsValid s' =
        subst (λ x. IsValid x.1) got (acquire_lock-IsValid b s l now ttl valid) in
      let (hb, num) = acquire_lock-held b s l now ttl tb (ap (λ x. x.2) got) in
      let hb' : Dict.get b'.held_tokens l ≡ some tb =
        subst (λ x. Dict.get (x.0).held_tokens l ≡ some tb) got hb in
      let (same, accepted) =
        write_to_resource-success b' s' server r k v l none valid' tb hb' (ap (λ x. x.2) done) in
      let same' : server' ≡ (Resource.write server r k v tb).0 = sym (ap (λ x. x.1) done) ∙ same in
      let over = write_overtaken server r k v tb ws accepted k' v' old (omega arith) in
      rw same' (
        write_to_resource-refused a (serve_all s' rs)
          (write_all (Resource.write server r k v tb).0 ws) r k' v' l time
          (serve_all-IsValid s' rs valid') old ha over.0)

-- After `get_token` has dropped an expired token of a lock that the service still has as the
-- client's, `release_lock` raises `KeyError`, and the service has released the lock all the same.
pub release_lock-get_token_expired :
    (c : Client) (s : LockService) (l : String) (now : ℕ) (t : FencingToken)
    → held c s l ≡ some t
    → existing s l ≡ some t
    → t.client_id ≡ c.client_id
    → t.issued_at + t.ttl ≤ now
    → let c' = (get_token c s l (some now)).0 in
      (release_lock c' s l).2 ≡ key_error × (existing (release_lock c' s l).1 l ≡ none)
unfolding release_lock get_token held is_expired release existing
release_lock-get_token_expired c s l now t h e own past =
    elim (Option-cases (Dict.get c.held_tokens l)) [
      | inl q ↦ absurd (ground arith)
      | inr (n, q) ↦ grind (arith, get-remove)
    ]
