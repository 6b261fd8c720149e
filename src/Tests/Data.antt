-- ===== src/Tests/Data.antt =====
-- A contract with one entry, which a transaction updates.
use retroshade.Base.{List, [], ◌∷◌, none, some, if◌then◌else◌, ◌==◌}
use retroshade.Xdr.Value.{Bytes, MuxedAccount, ScAddress, ScVal, OptMap, ContractExecutable}
use retroshade.Xdr.Ledger.{
  LedgerEntry, LedgerEntryData, LedgerEntryChange, LedgerKey, LedgerKey-eq, ContractDataDurability,
}
use retroshade.Xdr.Transaction.{
  SorobanTransactionData, TransactionExt, InvokeHostFunctionOp, OperationBody, Operation,
  TransactionV1Envelope, TransactionMeta,
}
use retroshade.Execution.{EntryWithLiveUntil, SnapshotSource, RetroshadesExecution, HostResult}
use retroshade.Ledger.{Ledger}

abbrev pub this_contract : ScAddress
this_contract = ScAddress.contract (7 ∷ [])

abbrev pub counter_key : ContractDataDurability → LedgerKey
counter_key d =
    LedgerKey.contract_data
      (record { contract = this_contract; key = ScVal.symbol (b'c' ∷ []); durability = d })

abbrev pub counter : ContractDataDurability → ScVal → LedgerEntry
counter d v = record {
  last_modified_ledger_seq = 1;
  payload = LedgerEntryData.contract_data (record {
    contract = this_contract;
    key = ScVal.symbol (b'c' ∷ []);
    durability = d;
    val = v;
  });
  ext = [];
}

abbrev pub persistent_key : LedgerKey
persistent_key = counter_key ContractDataDurability.persistent

abbrev pub before : LedgerEntry
before = counter ContractDataDurability.persistent (ScVal.u32 1)

abbrev pub after : LedgerEntry
after = counter ContractDataDurability.persistent (ScVal.u32 2)

abbrev pub ledger_with : LedgerEntry → Ledger
ledger_with e j = if j == persistent_key then some e else none

abbrev pub source_of : LedgerEntry → SnapshotSource
source_of e j =
    if j == persistent_key then HostResult.ok (some (e, some 100)) else HostResult.ok none

abbrev pub update_changes : List LedgerEntryChange
update_changes = LedgerEntryChange.state before ∷ LedgerEntryChange.updated after ∷ []

abbrev pub update_meta : TransactionMeta
update_meta = TransactionMeta.v3 (record { operations = record { changes = update_changes } ∷ [] })

abbrev pub soroban_data : SorobanTransactionData
soroban_data = record {
  resources = record {
    footprint = record { read_only = []; read_write = persistent_key ∷ [] };
    rest = [];
  };
  rest = [];
}

abbrev pub invocation : InvokeHostFunctionOp
invocation = record { host_function = 1 ∷ []; auth = [] }

abbrev pub invoke_operation : Operation
invoke_operation = record {
  source_account = none;
  body = OperationBody.invoke_host_function invocation;
}

abbrev pub envelope : TransactionV1Envelope
envelope = record {
  tx = record {
    source_account = MuxedAccount.ed25519 (9 ∷ []);
    ext = TransactionExt.v1 soroban_data;
    operations = invoke_operation ∷ [];
  };
}

abbrev pub loaded : List EntryWithLiveUntil → RetroshadesExecution
loaded st = record {
  target_pre_execution_state = st;
  force_remove = [];
  host_function = none;
  auth_entries = [];
  resources = none;
  source_account = none;
  ledger_info = [];
}

-- An instance of the contract, whose code is under the hash 5, and that code.
abbrev pub instance_entry : LedgerEntry
instance_entry = record {
  last_modified_ledger_seq = 1;
  payload = LedgerEntryData.contract_data (record {
    contract = this_contract;
    key = ScVal.ledger_key_contract_instance;
    durability = ContractDataDurability.persistent;
    val = ScVal.contract_instance (ContractExecutable.wasm (5 ∷ [])) OptMap.no_map;
  });
  ext = [];
}

abbrev pub code_entry : Bytes → LedgerEntry
code_entry code = record {
  last_modified_ledger_seq = 1;
  payload = LedgerEntryData.contract_code (record { ext = []; hash = 5 ∷ []; code = code });
  ext = [];
}
