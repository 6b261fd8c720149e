-- ===== src/Standalone/Database.antt =====
-- What retroshade/src/bin/standalone.rs uses of rusqlite, of the XDR codec and of other crates.
use retroshade.Base.{ℕ, [], ◌∷◌, Option}
use retroshade.Base.Int.{ℤ}
use retroshade.Xdr.Value.{Bytes, Opaque, Hash, ScAddress, ScVal}
use retroshade.Xdr.Ledger.{LedgerEntry, LedgerKey}
use retroshade.Conversion.Codec.{Text}

-- The queries, with what is bound to their parameters.
pub data Query : Type 0 where
  -- SELECT ledgerseq, closetime FROM ledgerheaders ORDER BY ledgerseq DESC LIMIT 1
  ledger_header : Query
  -- SELECT ledgerentry FROM ttl WHERE keyhash = ?1
  ttl : Text → Query
  -- SELECT ledgerentry FROM trustlines where accountid = ?1 AND asset = ?2
  trustline : Text → Text → Query
  -- SELECT balance FROM accounts where accountid = ?1
  account : Text → Query
  -- SELECT ledgerentry FROM contractcode where hash = ?1
  code : Text → Query
  -- SELECT ledgerentry FROM contractdata where contractid = ?1 AND key = ?2
  contract_data : Text → Text → Query

-- `LedgerEntryExt::V0` and the like in XDR.
abbrev pub ext_v0 : Opaque
ext_v0 = 0 ∷ 0 ∷ 0 ∷ 0 ∷ []

pub record Db : Type 1 where
  pub Row : Type 0
  -- The first row that answers a query; the outer `none` is an error of the database.
  pub query : Query → Option (Option Row)
  -- `row.get(0)` as a text, and a column as a number; a column of another type is an error.
  pub get_text : Row → Option Text
  pub get_i32 : ℕ → Row → Option ℤ
  pub get_i64 : ℕ → Row → Option ℤ
  pub key_to_xdr : LedgerKey → Option Bytes
  pub sha256 : Bytes → Hash
  pub hash_to_base64 : Hash → Option Text
  pub asset_to_base64 : Opaque → Option Text
  pub address_to_base64 : ScAddress → Option Text
  pub value_to_base64 : ScVal → Option Text
  pub entry_from_base64 : Text → Option LedgerEntry
  pub strkey_ed25519 : Hash → Text
  -- The fields of an account but its id, in XDR: the balance, and zero or nothing for the others.
  pub account_rest : ℤ → Opaque
