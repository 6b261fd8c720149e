-- ===== src/Conversion/Wide.antt =====
-- retroshade/src/conversion.rs: the numbers of 128 and 256 bits, which come in parts of 64 bits.
use retroshade.Base.{ℕ, ◌+◌, ◌*◌, ◌^◌, ◌<◌, Option, none, some, ◌≡◌, refl, ap, ◌∙◌, arith}
use retroshade.Base.Int.{ℤ, pos, ◌*ℕ◌, ◌+ℕ◌}
use retroshade.Xdr.Value.{ScVal}
use retroshade.Execution.{ok}
use retroshade.Conversion.Codec.{Codec}
use retroshade.Conversion.Number.{
  u128_to_bigint, i128_to_bigint, u256_to_bigint, i256_to_bigint, num_to_string,
}
use retroshade.Conversion.Value.{numeric_column, from_scval}

-- What num-bigint documents: the conversions keep the value, a shift by k bits is a product with
-- 2 ^ k, and in two's complement `|` adds a number below 2 ^ k to a multiple of it.
pub record BigIntLaws (c : Codec) : Type 0 where
  pub value : c.BigInt → ℤ
  pub from_i64 : (n : ℤ) → (b : c.BigInt) × (c.from_i64 n ≡ some b) × (value b ≡ n)
  pub from_u64 : (n : ℕ) → n < 2 ^ 64 → (b : c.BigInt) × (c.from_u64 n ≡ some b) × (value b ≡ pos n)
  pub shl : (b : c.BigInt) (k : ℕ) → value (c.shl b k) ≡ value b *ℕ 2 ^ k
  pub bitor :
      (a b : c.BigInt) (z : ℤ) (k n : ℕ)
      → value a ≡ z *ℕ 2 ^ k
      → value b ≡ pos n
      → n < 2 ^ k
      → value (c.bitor a b) ≡ z *ℕ 2 ^ k +ℕ n

-- The number that the parts mean.
abbrev pub wide_value : ScVal → Option ℤ
wide_value (ScVal.u128 p) = some (pos (p.hi * 2 ^ 64 + p.lo))
wide_value (ScVal.i128 p) = some (p.hi *ℕ 2 ^ 64 +ℕ p.lo)
wide_value (ScVal.u256 p) =
    some (pos ((p.hi_hi * 2 ^ 64 + p.hi_lo) * 2 ^ 128 + (p.lo_hi * 2 ^ 64 + p.lo_lo)))
wide_value (ScVal.i256 p) =
    some ((p.hi_hi *ℕ 2 ^ 64 +ℕ p.hi_lo) *ℕ 2 ^ 128 +ℕ (p.lo_hi * 2 ^ 64 + p.lo_lo))
wide_value _ = none

-- The unsigned parts have 64 bits.
abbrev pub Fits : ScVal → Type 0
Fits (ScVal.u128 p) = (p.hi < 2 ^ 64) × (p.lo < 2 ^ 64)
Fits (ScVal.i128 p) = p.lo < 2 ^ 64
Fits (ScVal.u256 p) =
    (p.hi_hi < 2 ^ 64) × (p.hi_lo < 2 ^ 64) × (p.lo_hi < 2 ^ 64) × (p.lo_lo < 2 ^ 64)
Fits (ScVal.i256 p) = (p.hi_lo < 2 ^ 64) × (p.lo_hi < 2 ^ 64) × (p.lo_lo < 2 ^ 64)
Fits _ = Unit

module _ (c : Codec) (laws : BigIntLaws c) where
  open laws use {value}

  join :
      (a b : c.BigInt) (z : ℤ) (k n : ℕ)
      → value a ≡ z
      → value b ≡ pos n
      → n < 2 ^ k
      → value (c.bitor (c.shl a k) b) ≡ z *ℕ 2 ^ k +ℕ n
  join a b z k n ea eb small =
      laws.bitor (c.shl a k) b z k n (laws.shl a k ∙ ap (λ y. y *ℕ 2 ^ k) ea) eb small

  -- If the big integers obey their laws and the unsigned parts have 64 bits, the conversion of a
  -- number of 128 or 256 bits succeeds: the numeric column has the decimal text of the big integer
  -- whose value is the number of the parts in two's complement.
  pub from_scval-wide_value :
      (v : ScVal) (z : ℤ) (depth : ℕ)
      → wide_value v ≡ some z
      → Fits v
      → (b : c.BigInt) × (value b ≡ z)
        × (from_scval c v depth ≡ ok (numeric_column (c.bigint_text b), depth))
  unfolding from_scval num_to_string u128_to_bigint i128_to_bigint u256_to_bigint i256_to_bigint
  from_scval-wide_value (ScVal.u128 p) z depth e (fh, fl) =
      let (hi, q1, v1) = laws.from_u64 p.hi fh in
      let (lo, q2, v2) = laws.from_u64 p.lo fl in
      let same : pos (p.hi * 2 ^ 64 + p.lo) ≡ z = cc in
      (c.bitor (c.shl hi 64) lo, join hi lo (pos p.hi) 64 p.lo v1 v2 fl ∙ same, rw (q1, q2) refl)
  from_scval-wide_value (ScVal.i128 p) z depth e fl =
      let (hi, q1, v1) = laws.from_i64 p.hi in
      let (lo, q2, v2) = laws.from_u64 p.lo fl in
      let same : p.hi *ℕ 2 ^ 64 +ℕ p.lo ≡ z = cc in
      (c.bitor (c.shl hi 64) lo, join hi lo p.hi 64 p.lo v1 v2 fl ∙ same, rw (q1, q2) refl)
  from_scval-wide_value (ScVal.u256 p) z depth e (f1, f2, f3, f4) =
      let (hi_hi, q1, v1) = laws.from_u64 p.hi_hi f1 in
      let (hi_lo, q2, v2) = laws.from_u64 p.hi_lo f2 in
      let (lo_hi, q3, v3) = laws.from_u64 p.lo_hi f3 in
      let (lo_lo, q4, v4) = laws.from_u64 p.lo_lo f4 in
      let hi = c.bitor (c.shl hi_hi 64) hi_lo in
      let lo = c.bitor (c.shl lo_hi 64) lo_lo in
      let same : pos ((p.hi_hi * 2 ^ 64 + p.hi_lo) * 2 ^ 128 + (p.lo_hi * 2 ^ 64 + p.lo_lo)) ≡ z =
        cc in
      (
        c.bitor (c.shl hi 128) lo,
        join hi lo (pos (p.hi_hi * 2 ^ 64 + p.hi_lo)) 128 (p.lo_hi * 2 ^ 64 + p.lo_lo)
              (join hi_hi hi_lo (pos p.hi_hi) 64 p.hi_lo v1 v2 f2)
              (join lo_hi lo_lo (pos p.lo_hi) 64 p.lo_lo v3 v4 f4) (omega arith)
            ∙ same,
        rw (q1, q2, q3, q4) refl,
      )
  from_scval-wide_value (ScVal.i256 p) z depth e (f2, f3, f4) =
      let (hi_hi, q1, v1) = laws.from_i64 p.hi_hi in
      let (hi_lo, q2, v2) = laws.from_u64 p.hi_lo f2 in
      let (lo_hi, q3, v3) = laws.from_u64 p.lo_hi f3 in
      let (lo_lo, q4, v4) = laws.from_u64 p.lo_lo f4 in
      let hi = c.bitor (c.shl hi_hi 64) hi_lo in
      let lo = c.bitor (c.shl lo_hi 64) lo_lo in
      let same : (p.hi_hi *ℕ 2 ^ 64 +ℕ p.hi_lo) *ℕ 2 ^ 128 +ℕ (p.lo_hi * 2 ^ 64 + p.lo_lo) ≡ z =
        cc in
      (
        c.bitor (c.shl hi 128) lo,
        join hi lo (p.hi_hi *ℕ 2 ^ 64 +ℕ p.hi_lo) 128 (p.lo_hi * 2 ^ 64 + p.lo_lo)
              (join hi_hi hi_lo p.hi_hi 64 p.hi_lo v1 v2 f2)
              (join lo_hi lo_lo (pos p.lo_hi) 64 p.lo_lo v3 v4 f4) (omega arith)
            ∙ same,
        rw (q1, q2, q3, q4) refl,
      )
  from_scval-wide_value _ z depth e f = cc
