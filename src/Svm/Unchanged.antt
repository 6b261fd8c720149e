-- ===== src/Svm/Unchanged.antt =====
-- retroshade/src/internal.rs: `no_op_change`, the change of an entry that is left as it is.
use retroshade.Base.{ℕ, ◌%◌, ◌^◌, true, Option, none, some, length}
use retroshade.Xdr.Ledger.{LedgerEntry, LedgerKey, ContractDataDurability}
use retroshade.Execution.{Outcome, ok, panic, ◌>>=◌, HostResult, unwrap}
use retroshade.Svm.Calls.{LedgerEntryLiveUntilChange, LedgerEntryChangeHelper, Host}
use retroshade.Svm.Encode.{compute_key_hash}

abbrev pub key_durability : LedgerKey → Option ContractDataDurability
key_durability (LedgerKey.contract_data cd) = some cd.durability
key_durability (LedgerKey.contract_code _) = some ContractDataDurability.persistent
key_durability _ = none

-- `Result::unwrap`
abbrev pub unwrap_host {ℓ} : {A : Type ℓ} → HostResult A → Outcome A
unwrap_host (HostResult.ok a) = ok a
unwrap_host (HostResult.err _) = panic

module _ (h : Host) where
  -- `durability.map(…)`
  unfoldable pub no_op_ttl_change :
      Option ContractDataDurability → LedgerKey → ℕ → Outcome (Option LedgerEntryLiveUntilChange)
  unfolding compute_key_hash
  no_op_ttl_change none ledger_key live_until_ledger = ok none
  no_op_ttl_change (some durability) ledger_key live_until_ledger = do
    key_hash ← compute_key_hash h ledger_key
    ok (
        some (record {
          entry_type = h.discriminant ledger_key;
          key_hash = key_hash;
          durability = durability;
          old_live_until_ledger = live_until_ledger;
          new_live_until_ledger = live_until_ledger;
        }))

  unfoldable pub no_op_change : LedgerEntry → ℕ → Outcome LedgerEntryChangeHelper
  unfolding no_op_ttl_change
  no_op_change entry live_until_ledger = do
    ledger_key ← unwrap_host (h.ledger_entry_to_ledger_key entry)
    entry_xdr ← unwrap (h.entry_to_xdr entry)
    ttl_change ← no_op_ttl_change (key_durability ledger_key) ledger_key live_until_ledger
    ok (record {
      read_only = true;
      key = ledger_key;
      old_entry_size_bytes = length entry_xdr % 2 ^ 32;
      new_value = none;
      ttl_change = ttl_change;
    })
