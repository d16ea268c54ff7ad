-- ===== src/Fencing/Resource/Stale.antt =====
-- A token that has been overtaken cannot write any more.
use ddia_implementations.Prelude.{
  ℕ, ◌≤◌, ◌<◌, String, ◌≡◌, some, List, [], ◌∷◌, arith, ite, string_dec,
}
use ddia_implementations.Dict.{get-put, get-empty}
use ddia_implementations.Fencing.Resource.{
  FencedResourceServer, success, stale, get_highest_token, write, read,
}

-- the arguments of one call of `write`
pub record WriteCall (V : Type 0) : Type 0 where
  pub resource : String
  pub key : String
  pub value : V
  pub fencing_token : ℕ

module _ {V : Type 0} where
  unfoldable pub write_all : FencedResourceServer V → List (WriteCall V) → FencedResourceServer V
  write_all s [] = s
  write_all s (w ∷ ws) = write_all (write s w.resource w.key w.value w.fencing_token).0 ws

  get_highest_token-write :
      (s : FencedResourceServer V) (r k : String) (v : V) (t : ℕ) (q : String)
      → get_highest_token s q ≤ get_highest_token (write s r k v t).0 q
  unfolding write
  get_highest_token-write s r k v t q = grind (arith, get-put)

  get_highest_token-write_all :
      (s : FencedResourceServer V) (ws : List (WriteCall V)) (q : String)
      → get_highest_token s q ≤ get_highest_token (write_all s ws) q
  unfolding write_all
  get_highest_token-write_all s [] q = omega arith
  get_highest_token-write_all s (w ∷ ws) q = omega (
    arith,
    get_highest_token-write s w.resource w.key w.value w.fencing_token q,
    get_highest_token-write_all (write s w.resource w.key w.value w.fencing_token).0 ws q,
  )

  write-stale :
      (s : FencedResourceServer V) (r k : String) (v : V) (t : ℕ)
      → t < get_highest_token s r
      → write s r k v t ≡ (s, stale t (get_highest_token s r))
  unfolding write
  write-stale s r k v t h = ground arith

  write-success :
      (s : FencedResourceServer V) (r k : String) (v : V) (t : ℕ)
      → (write s r k v t).1 ≡ success
      → get_highest_token (write s r k v t).0 r ≡ t
  unfolding write
  write-success s r k v t h = grind (arith, get-put)

  -- Once a write to a resource was accepted, then whatever is written after it, a write to that
  -- resource with a smaller token is refused as stale, against a highest token that is at least
  -- the accepted one, and the server does not change.
  pub write_overtaken :
      (s : FencedResourceServer V) (r k : String) (v : V) (t : ℕ) (ws : List (WriteCall V))
      → (write s r k v t).1 ≡ success
      → (k' : String) (v' : V) (old : ℕ) → old < t
      → let s' = write_all (write s r k v t).0 ws in
        (write s' r k' v' old ≡ (s', stale old (get_highest_token s' r)))
        × (t ≤ get_highest_token s' r)
  write_overtaken s r k v t ws accepted k' v' old lt =
      let s' = write_all (write s r k v t).0 ws in
      let at_least : t ≤ get_highest_token s' r = omega (
        arith,
        write-success s r k v t accepted,
        get_highest_token-write_all (write s r k v t).0 ws r,
      ) in
      (write-stale s' r k' v' old (omega arith), at_least)

  -- An accepted write is what `read` returns for its resource and key, and leaves every other
  -- resource and key as it was.
  pub read-write :
      (s : FencedResourceServer V) (r k : String) (v : V) (t : ℕ)
      → get_highest_token s r ≤ t
      → (q j : String)
      → read (write s r k v t).0 q j
        ≡ ite (string_dec r q) (ite (string_dec k j) (some v) (read s q j)) (read s q j)
  unfolding write read
  read-write s r k v t h q j = grind (arith, get-put, get-empty)
