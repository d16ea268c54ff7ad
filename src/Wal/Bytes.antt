-- ===== src/Wal/Bytes.antt =====
-- `struct.pack` and `struct.unpack` at the formats of write-ahead-log/wal.py, and slices of `bytes`.
-- A byte string is a list of numbers.
use Prim.Native.Nat.pow.{suc as pow_suc}
use ddia_implementations.Prelude.{
  ℕ, zero, suc, ◌+◌, ◌-◌, ◌*◌, ◌/◌, ◌%◌, ◌^◌, ◌<◌, List, [], ◌∷◌, ◌≡◌, refl, Option, none, some,
  ltb, leb, length, take, drop, if◌then◌else◌, arith, ap, ◌&&◌, subst,
}

abbrev pub Bytes : Type 0
Bytes = List ℕ

-- little-endian, `w` bytes
unfoldable pub le_bytes : ℕ → ℕ → Bytes
le_bytes zero n = []
le_bytes (suc w) n = n % 256 ∷ le_bytes w (n / 256)

unfoldable pub le_value : Bytes → ℕ
le_value [] = 0
le_value (b ∷ bs) = b + 256 * le_value bs

-- "B", "I" and "Q" (1, 4 and 8 bytes): `none` is the `struct.error` for a number out of range
unfoldable pub pack : ℕ → ℕ → Option Bytes
pack w n = if ltb n (256 ^ w) then some (le_bytes w n) else none

-- "i" at a length, which is not negative
unfoldable pub pack_int : ℕ → Option Bytes
pack_int n = if ltb n (2 ^ 31) then some (le_bytes 4 n) else none

-- A Python index: from the start, or negative, which counts from the end.
pub data Index : Type 0 where
  from_start from_end : ℕ → Index

-- an "i" as it is stored: two's complement
abbrev pub plus : Index → ℕ → Index
plus (from_start n) u = from_start (n + u)
plus (from_end k) u = if leb k u then from_start (u - k) else from_end (k - u)

abbrev pub minus : Index → ℕ → Index
minus (from_start n) d = if leb d n then from_start (n - d) else from_end (d - n)
minus (from_end k) d = from_end (k + d)

unfoldable pub plus_int : Index → ℕ → Index
plus_int i u = if ltb u (2 ^ 31) then plus i u else minus i (2 ^ 32 - u)

-- where a slice of `len` bytes begins or ends
abbrev pub position : ℕ → Index → ℕ
position len (from_start n) = n
position len (from_end k) = len - k

-- `data[i:j]`
unfoldable pub slice : Bytes → Index → Index → Bytes
slice bs i j = drop (position (length bs) i) (take (position (length bs) j) bs)

-- `struct.unpack_from("<i", data, i)[0]` as it is stored; `none` is `struct.error`
unfoldable pub unpack_int_from : Bytes → Index → Option ℕ
unpack_int_from bs (from_start n) =
    if leb (n + 4) (length bs) then some (le_value (take 4 (drop n bs))) else none
unpack_int_from bs (from_end k) =
    if leb k (length bs) && leb 4 k
    then some (le_value (take 4 (drop (length bs - k) bs)))
    else none

pub length-le_bytes : (w n : ℕ) → length (le_bytes w n) ≡ w
unfolding le_bytes
length-le_bytes zero n = refl
length-le_bytes (suc w) n = ap suc (length-le_bytes w (n / 256))

div_lt : (p n : ℕ) → n < p * 256 → n / 256 < p
div_lt p n h = omega arith

pow_step : (w n : ℕ) → n < 256 ^ suc w → n / 256 < 256 ^ w
pow_step w n h = div_lt (256 ^ w) n (subst (λ p. n < p) (pow_suc 256 w) h)

pub le_value-le_bytes : (w n : ℕ) → n < 256 ^ w → le_value (le_bytes w n) ≡ n
unfolding le_bytes le_value
le_value-le_bytes zero n h = omega arith
le_value-le_bytes (suc w) n h = omega (arith, le_value-le_bytes w (n / 256) (pow_step w n h))
