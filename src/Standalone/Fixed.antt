-- ===== src/Standalone/Fixed.antt =====
-- retroshade/src/bin/standalone.rs: the source of one contract (`TestDynamicSnapshot`), which also
-- stands in retroshade/src/testutils.rs.
use retroshade.Base.{ℕ, zero, suc, [], ◌∷◌, Option, some, ltb, length, if◌then◌else◌}
use retroshade.Xdr.Value.{Bytes, Hash, ScAddress, ScVal, ScMap, OptMap, ContractExecutable}
use retroshade.Xdr.Ledger.{LedgerEntry, LedgerEntryData, LedgerKey, ContractDataDurability}
use retroshade.Execution.{EntryWithLiveUntil, Outcome, ok, panic, ◌>>=◌, HostResult, unwrap}
use retroshade.State.Reset.{u32_max}
use retroshade.Standalone.Database.{ext_v0}

abbrev zeros : ℕ → Bytes
zeros zero = []
zeros (suc n) = 0 ∷ zeros n

-- `Hash([0; 32])`
abbrev pub zero_hash : Hash
zero_hash = zeros 32

-- `try_into().unwrap()` to a `BytesM`, which holds at most `u32::MAX` bytes.
abbrev pub bytes_m : Bytes → Outcome Bytes
bytes_m code = if ltb u32_max (length code) then panic else ok code

abbrev pub fixed_code : Bytes → LedgerEntry
fixed_code code = record {
  last_modified_ledger_seq = 0;
  payload = LedgerEntryData.contract_code (record { ext = ext_v0; hash = zero_hash; code = code });
  ext = ext_v0;
}

abbrev pub fixed_instance : LedgerEntry
fixed_instance = record {
  last_modified_ledger_seq = 0;
  payload = LedgerEntryData.contract_data (record {
    contract = ScAddress.contract zero_hash;
    key = ScVal.ledger_key_contract_instance;
    durability = ContractDataDurability.persistent;
    val = ScVal.contract_instance (ContractExecutable.wasm zero_hash) (OptMap.some_map ScMap.end);
  });
  ext = ext_v0;
}

-- `file` is what `std::fs::read` gives for the path of the contract.
unfoldable pub get : Option Bytes → LedgerKey → Outcome (HostResult (Option EntryWithLiveUntil))
get file (LedgerKey.contract_code _) = do
  read ← unwrap file
  code ← bytes_m read
  ok (HostResult.ok (some (fixed_code code, some 10000)))
get file (LedgerKey.contract_data _) = ok (HostResult.ok (some (fixed_instance, some 10000)))
get file _ = panic
