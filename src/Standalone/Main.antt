-- ===== src/Standalone/Main.antt =====
-- retroshade/src/bin/standalone.rs: `main`, which runs one contract without arguments. Its result
-- is the text that it prints. `to_json` is `serde_json::to_string` on the exports, which can fail.
use retroshade.Base.{false, List, [], ◌∷◌, Option, none, some, ltb, ◌≡◌, refl, length}
use retroshade.Xdr.Value.{Bytes, Opaque, MuxedAccount, ScAddress, ScVal}
use retroshade.Xdr.Ledger.{LedgerKey, ContractDataDurability}
use retroshade.Xdr.Transaction.{
  SorobanTransactionData, TransactionExt, InvokeHostFunctionOp, OperationBody,
  TransactionV1Envelope, TransactionMeta,
}
use retroshade.Conversion.Codec.{Text}
use retroshade.Execution.{
  EntryWithLiveUntil, Outcome, ok, err, panic, ◌>>=◌, HostResult, unwrap, SnapshotSource,
  RetroshadesExecution, RetroshadeExport, RetroshadeExecutionResult, new,
}
use retroshade.State.Build.{
  build_current_state, load_footprint, push_entry, with_invocation, account_id_of,
}
use retroshade.State.Reset.{
  u32_max, state_reset_to_pre_execution, process_operations, process_operation, process_changes,
}
use retroshade.State.Binaries.{
  replace_binaries, replaced_state, binaries_mutation, entry_mutation, contract_mutation,
  registered_mutation, get, replace_codes, entry_replacement,
}
use retroshade.State.Lives.{all_live, lives}
use retroshade.Svm.Calls.{Invocation, Host}
use retroshade.Svm.Pairs.{Writes}
use retroshade.Retroshade.{build_from_envelope_and_meta, retroshade_enforcing}
use retroshade.Retroshade.Run.{Subject, Encodes, Reads, host_answer, retroshade_enforcing-answer}
use retroshade.Standalone.Fixed.{zero_hash, fixed_code, fixed_instance}
use retroshade.Standalone.Fixed

-- The XDR of the constants of `main` that the code does not look into: the call of `t`, the limits
-- and the fees; and the ledger that it names.
pub record Constants : Type 0 where
  pub host_function : Opaque
  pub limits : Opaque
  pub fee : Opaque
  pub ledger_info : Opaque

abbrev pub code_key : LedgerKey
code_key = LedgerKey.contract_code (record { hash = zero_hash })

abbrev pub instance_key : LedgerKey
instance_key = LedgerKey.contract_data (record {
  contract = ScAddress.contract zero_hash;
  key = ScVal.ledger_key_contract_instance;
  durability = ContractDataDurability.persistent;
})

abbrev pub soroban_data : Constants → SorobanTransactionData
soroban_data c = record {
  resources = record {
    footprint = record { read_only = code_key ∷ instance_key ∷ []; read_write = [] };
    rest = c.limits;
  };
  rest = c.fee;
}

abbrev pub call : Constants → InvokeHostFunctionOp
call c = record { host_function = c.host_function; auth = [] }

abbrev pub main_envelope : Constants → TransactionV1Envelope
main_envelope c = record {
  tx = record {
    source_account = MuxedAccount.ed25519 zero_hash;
    ext = TransactionExt.v1 (soroban_data c);
    operations =
        record { source_account = none; body = OperationBody.invoke_host_function (call c) } ∷ [];
  };
}

abbrev pub main_meta : TransactionMeta
main_meta = TransactionMeta.v3 (record { operations = record { changes = [] } ∷ [] })

-- `Result::unwrap`
abbrev pub unwrap_result {ℓ} : {A : Type ℓ} → Outcome A → Outcome A
unwrap_result (ok a) = ok a
unwrap_result (err _) = panic
unwrap_result panic = panic

-- `main` over a source that does not panic.
unfoldable run :
    Host → (List RetroshadeExport → Option Text) → Bytes → Constants → SnapshotSource → Outcome Text
unfolding build_from_envelope_and_meta retroshade_enforcing
run h to_json seed c snapshot_source = do
  let build =
      build_from_envelope_and_meta snapshot_source (main_envelope c) main_meta []
        (new c.ledger_info)
  _ ← unwrap_result build.0
  retroshades ← unwrap_result (retroshade_enforcing h seed build.1)
  unwrap (to_json retroshades.retroshades)

-- The answers of `TestDynamicSnapshot`, which are the same for each key of a kind. The footprint
-- has no keys of other kinds, for which it panics.
abbrev fixed_source :
    HostResult (Option EntryWithLiveUntil) → HostResult (Option EntryWithLiveUntil) → SnapshotSource
fixed_source code contract (LedgerKey.contract_code _) = code
fixed_source code contract (LedgerKey.contract_data _) = contract
fixed_source code contract _ = HostResult.err []

-- `file` is what the source reads for the contract; a panic of the source is one of `main`.
unfoldable pub main :
    Host → (List RetroshadeExport → Option Text) → Bytes → Constants → Option Bytes → Outcome Text
unfolding Fixed.get run
main h to_json seed c file = do
  code ← Fixed.get file code_key
  contract ← Fixed.get file instance_key
  run h to_json seed c (fixed_source code contract)

-- What `main` runs the host on.
abbrev pub subject : Constants → Subject
subject c = record {
  host_function = c.host_function;
  auth_entries = [];
  resources = (soroban_data c).resources;
  source_account = record { ed25519 = zero_hash };
  ledger_info = c.ledger_info;
}

abbrev pub fixed_state : Bytes → List EntryWithLiveUntil
fixed_state code = (fixed_code code, some 10000) ∷ (fixed_instance, some 10000) ∷ []

-- The source answers the keys of the footprint as `TestDynamicSnapshot` does with this file.
record AnswersFixed (code : Bytes) (s : SnapshotSource) : Type 0 where
  pub fits : ltb u32_max (length code) ≡ false
  pub code_answer : Fixed.get (some code) code_key ≡ ok (s code_key)
  pub instance_answer : Fixed.get (some code) instance_key ≡ ok (s instance_key)

abbrev pub built : Constants → Bytes → RetroshadesExecution
built c code = record {
  target_pre_execution_state = fixed_state code;
  force_remove = [];
  host_function = some c.host_function;
  auth_entries = [];
  resources = some (soroban_data c).resources;
  source_account = some (record { ed25519 = zero_hash });
  ledger_info = c.ledger_info;
}

fixed-code :
    (code : Bytes) (s : SnapshotSource)
    → AnswersFixed code s
    → s code_key ≡ HostResult.ok (some (fixed_code code, some 10000))
unfolding Fixed.get
fixed-code code s a =
    let e : ok (HostResult.ok (some (fixed_code code, some 10000))) ≡ ok (s code_key) =
      rw a.fits at a.code_answer in
    cc

fixed-instance :
    (code : Bytes) (s : SnapshotSource)
    → AnswersFixed code s
    → s instance_key ≡ HostResult.ok (some (fixed_instance, some 10000))
unfolding Fixed.get
fixed-instance code s a =
    let e : ok (HostResult.ok (some (fixed_instance, some 10000))) ≡ ok (s instance_key) =
      a.instance_answer in
    cc

-- Loading the two entries; the meta changes nothing and no contract is registered.
build-fixed :
    (c : Constants) (code : Bytes) (s : SnapshotSource)
    → AnswersFixed code s
    → build_from_envelope_and_meta s (main_envelope c) main_meta [] (new c.ledger_info)
      ≡ (ok false, built c code)
unfolding build_from_envelope_and_meta build_current_state load_footprint push_entry with_invocation
    account_id_of new state_reset_to_pre_execution process_operations process_operation
    process_changes replace_binaries replaced_state binaries_mutation entry_mutation
    contract_mutation registered_mutation get replace_codes entry_replacement
build-fixed c code s a = rw (fixed-code code s a, fixed-instance code s a) refl

-- What is printed of the JSON of the exports; without JSON there is a panic.
abbrev json_printed : Option Text → Outcome Text
json_printed none = panic
json_printed (some t) = ok t

-- What is printed of an answer: the JSON of its exports; an error is a panic.
abbrev pub printed :
    (List RetroshadeExport → Option Text) → Outcome RetroshadeExecutionResult → Outcome Text
printed to_json (ok r) = json_printed (to_json r.retroshades)
printed to_json (err _) = panic
printed to_json panic = panic

module _ (h : Host) (w : Writes h) (to_json : List RetroshadeExport → Option Text) where
  unwrap-json_printed : (o : Option Text) → unwrap o ≡ json_printed o
  unwrap-json_printed none = refl
  unwrap-json_printed (some t) = refl

  unwrap-printed :
      (o : Outcome RetroshadeExecutionResult)
      → (unwrap_result o >>= λ r. unwrap (to_json r.retroshades)) ≡ printed to_json o
  unwrap-printed (ok r) = unwrap-json_printed (to_json r.retroshades)
  unwrap-printed (err e) = refl
  unwrap-printed panic = refl

  run-host_answer :
      (seed : Bytes) (c : Constants) (code : Bytes) (s : SnapshotSource)
      → Reads h
      → AnswersFixed code s
      → (i : Invocation) × Encodes h (subject c) (fixed_state code) seed i
        × (run h to_json seed c s ≡ printed to_json (host_answer h i))
  unfolding run all_live lives
  run-host_answer seed c code s reads a =
      let (i, enc, run) =
        retroshade_enforcing-answer h w (subject c) (built c code) seed reads (refl, refl) in
      (i, enc, rw (build-fixed c code s a, run) (unwrap-printed (host_answer h i)))

  pub main-host_answer :
      (seed : Bytes) (c : Constants) (code : Bytes)
      → Reads h
      → ltb u32_max (length code) ≡ false
      → (i : Invocation) × Encodes h (subject c) (fixed_state code) seed i
        × (main h to_json seed c (some code) ≡ printed to_json (host_answer h i))
  unfolding main Fixed.get
  main-host_answer seed c code reads fits =
      let s =
        fixed_source (HostResult.ok (some (fixed_code code, some 10000)))
          (HostResult.ok (some (fixed_instance, some 10000))) in
      let (i, enc, e) =
        run-host_answer seed c code s reads
          (record { fits = fits; code_answer = rw fits refl; instance_answer = refl }) in
      (i, enc, rw fits e)
