-- ===== src/Fencing/Lock/Valid.antt =====
-- What the table of locks and the heap of tokens say of each other.
use ddia_implementations.Prelude.{
  ℕ, ◌<◌, String, ◌≡◌, Option, none, some, List, [], ◌∷◌, arith, ite, string_key, nat_key,
  string_dec, if◌then◌else◌, Option-cases, inl, inr,
}
use ddia_implementations.Dict
use ddia_implementations.Dict.{dict_laws, get-put, get-remove, get-empty}
use ddia_implementations.Fencing.Lock.{
  LockService, FencingToken, init, existing, is_taken, is_owner, acquire, release, renew,
}
use ddia_implementations.Fencing.Lock.Requests.{
  Request, acquire_call, release_call, renew_call, serve, serve_all,
}

abbrev pub name_of : Option FencingToken → Option String
name_of none = none
name_of (some t) = some t.lock_name

abbrev pub extend : Option FencingToken → ℕ → ℕ → Option FencingToken
extend none now ttl = none
extend (some t) now ttl = some (record t { issued_at = now; ttl = ttl })

pub record IsValid (s : LockService) : Type 0 where
  pub fresh :
      (r : ℕ) (t : FencingToken) → Dict.get s.tokens r ≡ some t → (r < s.counter) × (t.token ≡ r)
  pub named :
      (l : String) (r : ℕ) → Dict.get s.locks l ≡ some r → name_of (Dict.get s.tokens r) ≡ some l

-- An entry of the table refers to a token of that lock, which stands under its own number.
pub valid_entry :
    (s : LockService)
    → IsValid s
    → (l : String) (r : ℕ) → Dict.get s.locks l ≡ some r
    → (t : FencingToken) × (Dict.get s.tokens r ≡ some t)
      × (t.lock_name ≡ l)
      × (t.token ≡ r)
      × (r < s.counter)
valid_entry s valid l r h = elim (Option-cases (Dict.get s.tokens r)) [
  | inl e ↦ ground (arith, valid.named l r h)
  | inr (t, e) ↦
      (t, e, ground (arith, valid.named l r h), (valid.fresh r t e).1, (valid.fresh r t e).0)
]

module _ (s : LockService) (valid : IsValid s) (l c : String) (now ttl : ℕ) where
  abbrev new : FencingToken
  new = record { token = s.counter; lock_name = l; client_id = c; issued_at = now; ttl = ttl }

  pub existing-acquire :
      (j : String)
      → existing (acquire s l c now ttl).0 j ≡ (
          if is_taken (existing s l) c now
          then existing s j
          else ite (string_dec l j) (some new) (existing s j))
  unfolding acquire existing
  existing-acquire j = elim (Option-cases (Dict.get s.locks j)) [
    | inl e ↦ grind (arith, get-put)
    | inr (r, e) ↦ let (t, at, own, num, low) = valid_entry s valid j r e in grind (arith, get-put)
  ]

  pub acquire-IsValid : IsValid (acquire s l c now ttl).0
  unfolding acquire
  acquire-IsValid = record {
    fresh = λ r t h. grind (arith, get-put, valid.fresh);
    named = λ j r h. grind (arith, get-put, valid_entry s valid j r);
  }

  pub existing-release :
      (j : String)
      → existing (release s l c).0 j ≡ (
          if is_owner (existing s l) c
          then ite (string_dec l j) none (existing s j)
          else existing s j)
  unfolding release existing
  existing-release j = grind (arith, get-remove)

  release-IsValid : IsValid (release s l c).0
  unfolding release
  release-IsValid = record {
    fresh = λ r t h. grind (arith, get-remove, valid.fresh);
    named = λ j r h. grind (arith, get-remove, valid.fresh, valid.named);
  }

  pub existing-renew :
      (j : String)
      → existing (renew s l c now ttl).0 j ≡ (
          if (renew s l c now ttl).1
          then ite (string_dec l j) (extend (existing s j) now ttl) (existing s j)
          else existing s j)
  unfolding renew existing
  existing-renew j = elim (Option-cases (Dict.get s.locks j)) [
    | inl e ↦ grind (arith, get-put, valid_entry s valid l)
    | inr (r, e) ↦
        let (t, at, own, num, low) = valid_entry s valid j r e in
        grind (arith, get-put, valid_entry s valid l)
  ]

  renew-IsValid : IsValid (renew s l c now ttl).0
  unfolding renew existing
  renew-IsValid = record {
    fresh = λ r t h. grind (arith, get-put, valid.fresh);
    named = λ j r h. grind (arith, get-put, valid_entry s valid j r, valid_entry s valid l);
  }

pub init-IsValid : IsValid init
init-IsValid = record {
  fresh = λ r t h. cc (get-empty {V = FencingToken} r);
  named = λ l r h. cc (get-empty {V = ℕ} l);
}

-- Every call keeps the invariant.
pub serve-IsValid : (s : LockService) (r : Request) → IsValid s → IsValid (serve s r)
unfolding serve
serve-IsValid s (acquire_call l c now ttl) v = acquire-IsValid s v l c now ttl
serve-IsValid s (release_call l c) v = release-IsValid s v l c 0 0
serve-IsValid s (renew_call l c now ttl) v = renew-IsValid s v l c now ttl

pub serve_all-IsValid : (s : LockService) (rs : List Request) → IsValid s → IsValid (serve_all s rs)
unfolding serve_all
serve_all-IsValid s [] v = v
serve_all-IsValid s (r ∷ rs) v = serve_all-IsValid (serve s r) rs (serve-IsValid s r v)
