-- ===== src/Standalone.antt =====
-- retroshade/src/bin/standalone.rs: the snapshot source over the database of stellar-core
-- (`DynamicSnapshot`), `get_ttl` and `get_current_ledger_sequence`.
pub mod Database
pub mod Answers
pub mod Lifetimes
pub mod Durability
pub mod Loads
pub mod Fixed
pub mod Main
use retroshade.Base.{ℕ, Option, none, some}
use retroshade.Base.Int.{ℤ, pos}
use retroshade.Xdr.Value.{ScAddress, ScVal}
use retroshade.Xdr.Ledger.{
  LedgerEntry, LedgerEntryData, LedgerKey, LedgerKeyAccount, LedgerKeyTrustLine,
  LedgerKeyContractData, LedgerKeyContractCode,
}
use retroshade.Execution.{EntryWithLiveUntil, Outcome, ok, ◌>>=◌, HostResult, unwrap}
use retroshade.Standalone.Database.{Query, Db, ext_v0}

abbrev pub or_zero : Option ℤ → ℤ
or_zero none = pos 0
or_zero (some n) = n

-- `let LedgerEntryData::Ttl(ttl) = entry.data else { return 0; }`
abbrev pub live_until : LedgerEntryData → ℕ
live_until (LedgerEntryData.ttl ttl) = ttl.live_until_ledger_seq
live_until _ = 0

module _ (db : Db) where
  open db use {Row}

  abbrev pub sequence_of : Option Row → ℤ × ℤ
  sequence_of none = (pos 0, pos 0)
  sequence_of (some row) = (or_zero (db.get_i32 0 row), or_zero (db.get_i64 1 row))

  unfoldable pub get_current_ledger_sequence : Outcome (ℤ × ℤ)
  get_current_ledger_sequence = do row ← unwrap (db.query Query.ledger_header); ok (sequence_of row)

  -- The entry in the first column of a row.
  unfoldable pub row_entry : Row → Outcome LedgerEntry
  row_entry row = do text ← unwrap (db.get_text row); unwrap (db.entry_from_base64 text)

  abbrev pub ttl_row : Option Row → Outcome ℕ
  ttl_row none = ok 0
  ttl_row (some row) = do entry ← row_entry row; ok (live_until entry.payload)

  unfoldable pub get_ttl : LedgerKey → Outcome ℕ
  unfolding row_entry
  get_ttl key = do
    key_xdr ← unwrap (db.key_to_xdr key)
    result ← unwrap (db.hash_to_base64 (db.sha256 key_xdr))
    row ← unwrap (db.query (Query.ttl result))
    ttl_row row

  abbrev Answer : Type 0
  Answer = Outcome (HostResult (Option EntryWithLiveUntil))

  abbrev pub trustline_row : Option Row → Answer
  trustline_row none = ok (HostResult.ok none)
  trustline_row (some row) = do entry ← row_entry row; ok (HostResult.ok (some (entry, none)))

  unfoldable pub trust_row : LedgerKeyTrustLine → Outcome (Option Row)
  trust_row trustline = do
    asset_xdr ← unwrap (db.asset_to_base64 trustline.asset)
    let account_id = db.strkey_ed25519 trustline.account_id.ed25519
    unwrap (db.query (Query.trustline account_id asset_xdr))

  unfoldable pub get_trustline : LedgerKeyTrustLine → Answer
  unfolding row_entry
  get_trustline trustline = do row ← trust_row trustline; trustline_row row

  -- Only the balance comes from the database.
  abbrev pub account_entry : LedgerKeyAccount → ℤ → LedgerEntry
  account_entry key balance = record {
    last_modified_ledger_seq = 0;
    payload =
        LedgerEntryData.account
          (record { account_id = key.account_id; rest = db.account_rest balance });
    ext = ext_v0;
  }

  abbrev pub account_row : LedgerKeyAccount → Option Row → Answer
  account_row key none = ok (HostResult.ok none)
  account_row key (some row) = do
    balance ← unwrap (db.get_i64 0 row)
    ok (HostResult.ok (some (account_entry key balance, none)))

  unfoldable pub get_account : LedgerKeyAccount → Answer
  get_account key = do
    row ← unwrap (db.query (Query.account (db.strkey_ed25519 key.account_id.ed25519)))
    account_row key row

  -- The branches of contract code and contract data, after the query.
  abbrev pub contract_row : LedgerKey → Option Row → Answer
  contract_row key none = ok (HostResult.ok none)
  contract_row key (some row) = do
    entry ← row_entry row
    ttl ← get_ttl key
    ok (HostResult.ok (some (entry, some ttl)))

  unfoldable pub code_row : LedgerKeyContractCode → Outcome (Option Row)
  code_row key = do hash ← unwrap (db.hash_to_base64 key.hash); unwrap (db.query (Query.code hash))

  unfoldable pub get_code : LedgerKeyContractCode → Answer
  unfolding code_row row_entry get_ttl
  get_code key = do row ← code_row key; contract_row (LedgerKey.contract_code key) row

  unfoldable pub data_row : ScAddress → ScVal → Outcome (Option Row)
  data_row owner key = do
    contract_xdr ← unwrap (db.address_to_base64 owner)
    scval ← unwrap (db.value_to_base64 key)
    unwrap (db.query (Query.contract_data contract_xdr scval))

  unfoldable pub get_data : LedgerKeyContractData → Answer
  unfolding row_entry get_ttl
  get_data key = do
    row ← data_row key.contract key.key
    contract_row (LedgerKey.contract_data key) row

  unfoldable pub get : LedgerKey → Answer
  unfolding get_trustline get_account get_code get_data
  get (LedgerKey.trustline trustline) = get_trustline trustline
  get (LedgerKey.account key) = get_account key
  get (LedgerKey.contract_code key) = get_code key
  get (LedgerKey.contract_data key) = get_data key
  get (LedgerKey.other _) = ok (HostResult.ok none)
