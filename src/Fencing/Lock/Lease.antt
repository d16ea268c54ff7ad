-- ===== src/Fencing/Lock/Lease.antt =====
-- A lease excludes other clients until it runs out.
use ddia_implementations.Prelude.{
  ℕ, ◌+◌, ◌≤◌, ◌<◌, String, ◌≡◌, ◌≢◌, none, some, List, [], ◌∷◌, arith, All, ◌↔◌, Option-cases, inl,
  inr,
}
use ddia_implementations.Fencing.Lock.{
  LockService, FencingToken, existing, is_taken, is_owner, acquire, renew, renewed, is_expired,
  is_held,
}
use ddia_implementations.Fencing.Lock.Requests.{
  Request, acquire_call, release_call, renew_call, serve, serve_all,
}
use ddia_implementations.Fencing.Lock.Valid.{
  IsValid, existing-acquire, existing-release, existing-renew, serve-IsValid, acquire-IsValid,
}

-- The lock is the client's, under this token, at least until `until`.
pub record Leased (s : LockService) (l c : String) (token until : ℕ) : Type 0 where
  pub holder : FencingToken
  pub entry : existing s l ≡ some holder
  pub owner : holder.client_id ≡ c
  pub number : holder.token ≡ token
  pub lasts : until ≤ holder.issued_at + holder.ttl

-- A call by another client, made before `until` where it carries a time.
abbrev pub IsForeign : String → ℕ → Request → Type 0
IsForeign c until (acquire_call l d now ttl) = (d ≢ c) × (now < until)
IsForeign c until (release_call l d) = d ≢ c
IsForeign c until (renew_call l d now ttl) = d ≢ c

module _ (s : LockService) (valid : IsValid s) (l c : String) (token until : ℕ) where
  serve-entry :
      (r : Request)
      → IsForeign c until r
      → (t : FencingToken) → existing s l ≡ some t
      → t.client_id ≡ c
      → until ≤ t.issued_at + t.ttl
      → existing (serve s r) l ≡ some t
  unfolding serve is_taken is_owner renew renewed
  serve-entry (acquire_call m d now ttl) f t e o u =
      ground (arith, existing-acquire s valid m d now ttl l)
  serve-entry (release_call m d) f t e o u = ground (arith, existing-release s valid m d 0 0 l)
  serve-entry (renew_call m d now ttl) f t e o u =
      ground (arith, existing-renew s valid m d now ttl l)

  pub serve-Leased :
      (r : Request)
      → IsForeign c until r
      → Leased s l c token until
      → Leased (serve s r) l c token until
  serve-Leased r f h = record {
    holder = h.holder;
    entry = serve-entry r f h.holder h.entry h.owner h.lasts;
    owner = h.owner;
    number = h.number;
    lasts = h.lasts;
  }

-- Whatever the other clients ask for before `until`, the lease stands.
pub serve_all-Leased :
    (s : LockService) (l c : String) (token until : ℕ) (rs : List Request)
    → IsValid s
    → All (IsForeign c until) rs
    → Leased s l c token until
    → Leased (serve_all s rs) l c token until
unfolding serve_all
serve_all-Leased s l c token until [] v f h = h
serve_all-Leased s l c token until (r ∷ rs) v f h =
    serve_all-Leased (serve s r) l c token until rs (serve-IsValid s r v) f.1
      (serve-Leased s v l c token until r f.0 h)

-- A granted request is a lease for the time asked.
pub acquire-Leased :
    (s : LockService) (l c : String) (now ttl token : ℕ)
    → IsValid s
    → (acquire s l c now ttl).1 ≡ some token
    → Leased (acquire s l c now ttl).0 l c token (now + ttl)
unfolding acquire
acquire-Leased s l c now ttl token v h = record {
  holder = record { token = token; lock_name = l; client_id = c; issued_at = now; ttl = ttl };
  entry = ground (arith, existing-acquire s v l c now ttl l);
  owner = ground arith;
  number = ground arith;
  lasts = ground arith;
}

module _ (s : LockService) (l c : String) (token until : ℕ) (lease : Leased s l c token until) where
  acquire-none :
      (d : String) (now ttl : ℕ) → d ≢ c → now < until → acquire s l d now ttl ≡ (s, none)
  unfolding acquire is_expired
  acquire-none d now ttl ne early = rw lease.entry (ground (arith, lease.owner, lease.lasts))

  is_held-some :
      (now : ℕ)
      → now < until
      → (e : ℕ) × (is_held s l now ≡ some (record { client_id = c; token = token; expires_at = e }))
  unfolding is_held
  is_held-some now early = (
    lease.holder.issued_at + lease.holder.ttl,
    rw (lease.entry, lease.owner, lease.number, is_held) (ground (arith, lease.lasts)),
  )

-- A client whose request for a lock is granted at `now` for `ttl` keeps the lock until `now + ttl`
-- against all others: after any calls by other clients that come before that time, a further
-- request of another client for the lock, made before that time, is refused and changes nothing,
-- and `is_held` still names the client and its token.
pub acquire_excludes :
    (s : LockService) (l c : String) (now ttl token : ℕ) (rs : List Request)
    → IsValid s
    → (acquire s l c now ttl).1 ≡ some token
    → All (IsForeign c (now + ttl)) rs
    → (d : String) (at ttl' : ℕ) → d ≢ c
    → at < now + ttl
    → let s' = serve_all (acquire s l c now ttl).0 rs in
      (acquire s' l d at ttl' ≡ (s', none))
      × (e : ℕ) × (is_held s' l at ≡ some (record { client_id = c; token = token; expires_at = e }))
acquire_excludes s l c now ttl token rs v granted foreign d at ttl' ne early =
    let s' = serve_all (acquire s l c now ttl).0 rs in
    let lease =
      serve_all-Leased (acquire s l c now ttl).0 l c token (now + ttl) rs
        (acquire-IsValid s v l c now ttl) foreign (acquire-Leased s l c now ttl token v granted) in
    let (e, held) = is_held-some s' l c token (now + ttl) lease at early in
    (acquire-none s' l c token (now + ttl) lease d at ttl' ne early, e, held)

-- A request is refused exactly when another client's token stands for the lock and has not
-- expired; a refused request changes nothing.
pub acquire-eq-none_iff :
    (s : LockService) (l c : String) (now ttl : ℕ)
    → ((acquire s l c now ttl).1 ≡ none) ↔ (
        (t : FencingToken) × (existing s l ≡ some t)
        × (t.client_id ≢ c)
        × (now < t.issued_at + t.ttl)
        × ((acquire s l c now ttl).0 ≡ s))
unfolding acquire is_expired
acquire-eq-none_iff s l c now ttl = (refused, λ (t, e, ne, early, _). rw e (ground arith))
  where
    refused :
        (acquire s l c now ttl).1 ≡ none
        → (t : FencingToken) × (existing s l ≡ some t)
          × (t.client_id ≢ c)
          × (now < t.issued_at + t.ttl)
          × ((acquire s l c now ttl).0 ≡ s)
    refused h = elim (Option-cases (existing s l)) [
      | inl e ↦ absurd (ground arith)
      | inr (t, e) ↦ (t, e, ground arith, ground arith, ground arith)
    ]
