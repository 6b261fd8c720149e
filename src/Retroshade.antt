-- ===== src/Retroshade.antt =====
-- retroshade/src/lib.rs: the calls of `RetroshadesExecution`. The random seed of a call is its
-- argument.
pub mod PreState
pub mod Ready
pub mod Run
pub mod Recording
pub mod Packed
pub mod Replay
pub mod Swapped
use retroshade.Base.{Bool, true, Option, none, some}
use retroshade.Xdr.Value.{Bytes}
use retroshade.Xdr.Transaction.{TransactionV1Envelope, TransactionMeta}
use retroshade.Execution.{
  SnapshotSource, RetroshadesExecution, Step, and_then, Outcome, ok, err, ◌>>=◌, HostResult,
  svm_host, missing_context, RetroshadeExecutionResult,
}
use retroshade.State.Build.{build_current_state}
use retroshade.State.Reset.{state_reset_to_pre_execution}
use retroshade.State.Binaries.{Binaries, replace_binaries}
use retroshade.Snapshot
use retroshade.Svm.{execute_svm, execute_svm_in_recording_mode}
use retroshade.Svm.Calls.{Host, InvokeHostFunctionHelperResult}
use retroshade.Conversion.Codec.{Codec}
use retroshade.Export.{RetroshadeExecutionResultPretty, retroshade_prepare_for_db}

unfoldable pub build_from_envelope_and_meta :
    SnapshotSource
    → TransactionV1Envelope
    → TransactionMeta
    → Binaries
    → RetroshadesExecution
    → Step Bool
build_from_envelope_and_meta snapshot_source tx_envelope tx_meta mercury_contracts x =
    and_then (build_current_state snapshot_source tx_envelope x) λ _ y.
      and_then (state_reset_to_pre_execution tx_meta y) λ _ z. replace_binaries mercury_contracts z

-- `as_ref().ok_or(RetroshadeError::MissingContext)?`
abbrev pub context {ℓ} : {A : Type ℓ} → Option A → Outcome A
context (some a) = ok a
context none = err missing_context

abbrev pub execution_result :
    HostResult InvokeHostFunctionHelperResult → Outcome RetroshadeExecutionResult
execution_result (HostResult.ok result) =
    ok (record { retroshades = result.retroshades; diagnostic = result.diagnostic_events })
execution_result (HostResult.err host_error) = err (svm_host host_error)

module _ (h : Host) where
  -- The method `retroshade`.
  unfoldable pub retroshade_enforcing :
      Bytes → RetroshadesExecution → Outcome RetroshadeExecutionResult
  unfolding execute_svm
  retroshade_enforcing seed x = do
    host_function ← context x.host_function
    resources ← context x.resources
    source_account ← context x.source_account
    svm_execution ←
        execute_svm h true host_function resources source_account x.auth_entries x.ledger_info
          x.target_pre_execution_state seed
    execution_result svm_execution

  unfoldable pub retroshade_recording :
      Bytes → SnapshotSource → RetroshadesExecution → Outcome RetroshadeExecutionResult
  unfolding execute_svm_in_recording_mode
  retroshade_recording seed ledger_snapshot x = do
    let internal_snapshot = Snapshot.new ledger_snapshot x.target_pre_execution_state x.force_remove
    host_function ← context x.host_function
    source_account ← context x.source_account
    svm_execution ← execute_svm_in_recording_mode h (record {
      enable_diagnostics = true;
      host_fn = host_function;
      source_account = source_account;
      ledger_info = x.ledger_info;
      ledger_snapshot = Snapshot.get internal_snapshot;
      prng_seed = seed;
    })
    execution_result svm_execution

  unfoldable pub retroshade_packed_recording :
      Codec
      → Bytes
      → SnapshotSource
      → RetroshadesExecution
      → Outcome RetroshadeExecutionResultPretty
  unfolding retroshade_recording
  retroshade_packed_recording c seed ledger_snapshot x = do
    retroshade_exec ← retroshade_recording seed ledger_snapshot x
    retroshade_prepare_for_db c retroshade_exec

  unfoldable pub retroshade_packed :
      Codec → Bytes → RetroshadesExecution → Outcome RetroshadeExecutionResultPretty
  unfolding retroshade_enforcing
  retroshade_packed c seed x = do
    retroshade_exec ← retroshade_enforcing seed x
    retroshade_prepare_for_db c retroshade_exec
