-- ===== src/Conversion/Number.antt =====
-- retroshade/src/conversion.rs: the decimal texts of the number variants.
use mathlib.Core.WellFounded.{Acc}
use native.Mathlib.Decide.{dec_lt}
use mathlib.Core.Logic.{dite}
use retroshade.Base.{ℕ, zero, suc, ◌+◌, ◌/◌, ◌%◌, ◌<◌, [], ◌∷◌, ◌++◌, arith}
use retroshade.Base.Int.{ℤ, pos, negsuc}
use retroshade.Xdr.Value.{ScVal, UInt128Parts, Int128Parts, UInt256Parts, Int256Parts}
use retroshade.Execution.{Outcome, ok, panic, ◌>>=◌, unwrap}
use retroshade.Conversion.Codec.{Text, Codec}

unfoldable Acc-below : (k n : ℕ) → n < k → Acc ◌<◌ n
Acc-below zero n h = elim h [ ]
Acc-below (suc k) n h = Acc.intro n (λ m hm. Acc-below k m (omega arith))

unfoldable pub every-Acc : (n : ℕ) → Acc ◌<◌ n
unfolding Acc-below
every-Acc n = Acc-below (suc n) n (omega arith)

-- `to_string` of an unsigned integer: the digits, the last one first found.
unfoldable pub digits : (n : ℕ) → Acc ◌<◌ n → Text
digits n (Acc.intro _ smaller) =
    dite (dec_lt 9 n)
      (λ h. digits (n / 10) (smaller (n / 10) (omega arith)) ++ (b'0' + n % 10) ∷ [])
      (λ _. (b'0' + n) ∷ [])

unfoldable pub nat_text : ℕ → Text
unfolding digits every-Acc
nat_text n = digits n (every-Acc n)

-- `to_string` of a signed integer.
unfoldable pub int_text : ℤ → Text
unfolding nat_text
int_text (pos n) = nat_text n
int_text (negsuc n) = b'-' ∷ nat_text (n + 1)

module _ (c : Codec) where
  open c use {BigInt, from_i64, from_u64, shl, bitor, bigint_text}

  -- `(BigInt::from_u64(hi) << 64) | BigInt::from_u64(lo)`, the halves in their order.
  unfoldable pub u128_to_bigint : UInt128Parts → Outcome BigInt
  u128_to_bigint p = do
    hi ← unwrap (from_u64 p.hi)
    lo ← unwrap (from_u64 p.lo)
    ok (bitor (shl hi 64) lo)

  unfoldable pub i128_to_bigint : Int128Parts → Outcome BigInt
  i128_to_bigint p = do
    hi ← unwrap (from_i64 p.hi)
    lo ← unwrap (from_u64 p.lo)
    ok (bitor (shl hi 64) lo)

  unfoldable pub u256_to_bigint : UInt256Parts → Outcome BigInt
  u256_to_bigint p = do
    hi_hi ← unwrap (from_u64 p.hi_hi)
    hi_lo ← unwrap (from_u64 p.hi_lo)
    lo_hi ← unwrap (from_u64 p.lo_hi)
    lo_lo ← unwrap (from_u64 p.lo_lo)
    let hi = bitor (shl hi_hi 64) hi_lo
    let lo = bitor (shl lo_hi 64) lo_lo
    ok (bitor (shl hi 128) lo)

  unfoldable pub i256_to_bigint : Int256Parts → Outcome BigInt
  i256_to_bigint p = do
    hi_hi ← unwrap (from_i64 p.hi_hi)
    hi_lo ← unwrap (from_u64 p.hi_lo)
    lo_hi ← unwrap (from_u64 p.lo_hi)
    lo_lo ← unwrap (from_u64 p.lo_lo)
    let hi = bitor (shl hi_hi 64) hi_lo
    let lo = bitor (shl lo_hi 64) lo_lo
    ok (bitor (shl hi 128) lo)

  unfoldable pub num_to_string : ScVal → Outcome Text
  unfolding u128_to_bigint i128_to_bigint u256_to_bigint i256_to_bigint
  num_to_string (ScVal.i256 parts) = do b ← i256_to_bigint parts; ok (bigint_text b)
  num_to_string (ScVal.u256 parts) = do b ← u256_to_bigint parts; ok (bigint_text b)
  num_to_string (ScVal.i128 parts) = do b ← i128_to_bigint parts; ok (bigint_text b)
  num_to_string (ScVal.u128 parts) = do b ← u128_to_bigint parts; ok (bigint_text b)
  num_to_string _ = panic
