-- ===== src/Wal/Fields.antt =====
-- Where `_read_record` of write-ahead-log/wal.py finds the fields of a record.
use ddia_implementations.Prelude.{
  ℕ, ◌+◌, ◌^◌, ◌<◌, ◌++◌, some, length, take, drop, ◌≡◌, refl, arith, sym, ◌∙◌, take-front,
  drop-front, length-append, drop-drop, ap, drop-take, take-all, ◌≤◌,
}
use ddia_implementations.Wal.Bytes.{
  Bytes, Index, from_start, le_value, slice, unpack_int_from, plus, plus_int,
}
use ddia_implementations.Wal.Record.{Runtime, parse, decoded}

module _ {T : Type 0} (r : Runtime T) where
  parse-known :
      (d : Bytes) (i : Index) (c s o vl : ℕ) (key value rest : Bytes)
      → 17 ≤ length d
      → le_value (take 4 d) ≡ c
      → le_value (take 8 (drop 4 d)) ≡ s
      → le_value (take 1 (drop 12 d)) ≡ o
      → plus_int (from_start 17) (le_value (take 4 (drop 13 d))) ≡ i
      → unpack_int_from d i ≡ some vl
      → slice d (from_start 17) i ≡ key
      → slice d (plus i 4) (plus_int (plus i 4) vl) ≡ value
      → parse r d rest ≡ decoded r c s o key value rest
  unfolding parse
  parse-known d i c s o vl key value rest len hc hs ho hi hu hk hv = ground arith

  -- the fields of a record stand where `parse` looks for them
  pub parse-fields :
      (c s o k key v value rest : Bytes)
      → length c ≡ 4
      → length s ≡ 8
      → length o ≡ 1
      → length k ≡ 4
      → length v ≡ 4
      → le_value k ≡ length key
      → le_value v ≡ length value
      → length key < 2 ^ 31
      → length value < 2 ^ 31
      → parse r (c ++ (s ++ (o ++ (k ++ (key ++ (v ++ value)))))) rest
        ≡ decoded r (le_value c) (le_value s) (le_value o) key value rest
  unfolding parse slice plus_int unpack_int_from
  parse-fields c s o k key v value rest lc ls lo lk lv ek ev hk hv =
      let t5 : Bytes = v ++ value in
      let t4 : Bytes = key ++ t5 in
      let t3 : Bytes = k ++ t4 in
      let t2 : Bytes = o ++ t3 in
      let t1 : Bytes = s ++ t2 in
      let d : Bytes = c ++ t1 in
      let d4 : drop 4 d ≡ t1 = drop-front c t1 4 lc in
      let d12 : drop 12 d ≡ t2 =
        sym (drop-drop d 4 8 12 refl) ∙ ap (drop 8) d4 ∙ drop-front s t2 8 ls in
      let d13 : drop 13 d ≡ t3 =
        sym (drop-drop d 12 1 13 refl) ∙ ap (drop 1) d12 ∙ drop-front o t3 1 lo in
      let d17 : drop 17 d ≡ t4 =
        sym (drop-drop d 13 4 17 refl) ∙ ap (drop 4) d13 ∙ drop-front k t4 4 lk in
      let dv : drop (17 + length key) d ≡ t5 =
        sym (drop-drop d 17 (length key) (17 + length key) refl)
        ∙ ap (drop (length key)) d17
        ∙ drop-front key t5 (length key) refl in
      let dw : drop (17 + length key + 4) d ≡ value =
        sym (drop-drop d (17 + length key) 4 (17 + length key + 4) refl)
        ∙ ap (drop 4) dv
        ∙ drop-front v value 4 lv in
      let len : length d ≡ 17 + length key + 4 + length value = omega (
        arith,
        length-append c t1,
        length-append s t2,
        length-append o t3,
        length-append k t4,
        length-append key t5,
        length-append v value,
      ) in
      let f1 : take 4 d ≡ c = take-front c t1 4 lc in
      let f2 : take 8 (drop 4 d) ≡ s = ap (take 8) d4 ∙ take-front s t2 8 ls in
      let f3 : take 1 (drop 12 d) ≡ o = ap (take 1) d12 ∙ take-front o t3 1 lo in
      let f4 : take 4 (drop 13 d) ≡ k = ap (take 4) d13 ∙ take-front k t4 4 lk in
      let f5 : take 4 (drop (17 + length key) d) ≡ v = ap (take 4) dv ∙ take-front v value 4 lv in
      let key_at : slice d (from_start 17) (from_start (17 + length key)) ≡ key =
        drop-take d 17 (length key) (17 + length key) refl
        ∙ ap (take (length key)) d17
        ∙ take-front key t5 (length key) refl in
      let value_at : slice d (from_start (17 + length key + 4))
            (from_start (17 + length key + 4 + length value))
          ≡ value =
        drop-take d (17 + length key + 4) (length value) (17 + length key + 4 + length value) refl
        ∙ ap (take (length value)) dw
        ∙ take-all value (length value) (omega arith) in
      let offset : plus_int (from_start 17) (le_value (take 4 (drop 13 d)))
          ≡ from_start (17 + length key) =
        ground arith in
      let stored : unpack_int_from d (from_start (17 + length key)) ≡ some (length value) =
        ground arith in
      let off2 : plus_int (from_start (17 + length key + 4)) (length value)
          ≡ from_start (17 + length key + 4 + length value) =
        ground arith in
      parse-known d (from_start (17 + length key)) (le_value c) (le_value s) (le_value o)
        (length value) key value rest (omega (arith, len)) (ap le_value f1) (ap le_value f2)
        (ap le_value f3) offset stored key_at
        (ap (slice d (from_start (17 + length key + 4))) off2 ∙ value_at)
