-- ===== src/Conversion/Codec.antt =====
-- What conversion.rs and lib.rs of retroshade/src use of other packages: the encoders of hex,
-- stellar-strkey, stellar-xdr and serde_json, and the big integers of num-bigint. A text is the
-- list of its UTF-8 bytes.
use retroshade.Base.{ℕ, Option}
use retroshade.Base.Int.{ℤ}
use retroshade.Xdr.Value.{Bytes, Opaque, Hash, OptVals, OptMap}

abbrev pub Text : Type 0
Text = Bytes

pub record Codec : Type 1 where
  pub hex_encode : Bytes → Text
  pub strkey_ed25519 : Hash → Text
  pub strkey_contract : Hash → Text
  -- `to_string` of the string and the symbol type of XDR.
  pub string_text : Bytes → Text
  pub symbol_text : Bytes → Text
  -- `serde_json::to_string`, which may fail.
  pub json_vec : OptVals → Option Text
  pub json_map : OptMap → Option Text
  pub json_error : Opaque → Option Text
  pub BigInt : Type 0
  pub from_i64 : ℤ → Option BigInt
  pub from_u64 : ℕ → Option BigInt
  pub shl : BigInt → ℕ → BigInt
  pub bitor : BigInt → BigInt → BigInt
  pub bigint_text : BigInt → Text
