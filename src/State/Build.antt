-- ===== src/State/Build.antt =====
-- retroshade/src/state.rs: `build_current_state`, which reads the envelope and loads its footprint.
pub mod Footprint
pub mod Stops
use retroshade.Base.{List, [], ◌∷◌, ◌++◌, Option, none, some}
use retroshade.Xdr.Value.{AccountId, MuxedAccount}
use retroshade.Xdr.Ledger.{LedgerKey}
use retroshade.Xdr.Transaction.{
  SorobanResources, TransactionExt, InvokeHostFunctionOp, OperationBody, Operation,
  TransactionV1Envelope,
}
use retroshade.Execution.{
  EntryWithLiveUntil, not_soroban_tx, svm_host, ok, err, HostResult, SnapshotSource,
  RetroshadesExecution, Step,
}

-- The account id of a plain or a multiplexed account.
unfoldable pub account_id_of : MuxedAccount → AccountId
account_id_of (MuxedAccount.ed25519 uint) = record { ed25519 = uint }
account_id_of (MuxedAccount.muxed_ed25519 muxed) = record { ed25519 = muxed.ed25519 }

-- `source_account.as_ref().unwrap_or(&tx_source)`
abbrev pub source_or : Option MuxedAccount → MuxedAccount → MuxedAccount
source_or (some source) tx_source = source
source_or none tx_source = tx_source

unfoldable pub push_entry : Option EntryWithLiveUntil → RetroshadesExecution → RetroshadesExecution
push_entry none x = x
push_entry (some entry) x = record x {
  target_pre_execution_state = x.target_pre_execution_state ++ entry ∷ [];
}

-- The loop over the footprint. An error of the source ends it; the entries before it stay.
unfoldable pub load_footprint :
    SnapshotSource → List LedgerKey → RetroshadesExecution → Step (Unit {0})
unfolding push_entry
load_footprint source [] x = (ok tt, x)
load_footprint source (key ∷ keys) x = elim (source key) [
  | HostResult.ok entry ↦ load_footprint source keys (push_entry entry x)
  | HostResult.err e ↦ (err (svm_host e), x)
]

abbrev pub full_footprint : SorobanResources → List LedgerKey
full_footprint r = r.footprint.read_only ++ r.footprint.read_write

unfoldable pub with_invocation :
    InvokeHostFunctionOp
    → Option MuxedAccount
    → MuxedAccount
    → RetroshadesExecution
    → RetroshadesExecution
unfolding account_id_of
with_invocation host_fn source tx_source x = record x {
  auth_entries = host_fn.auth;
  host_function = some host_fn.host_function;
  source_account = some (account_id_of (source_or source tx_source));
}

-- The body of the first operation.
read_body :
    SnapshotSource
    → SorobanResources
    → MuxedAccount
    → Option MuxedAccount
    → OperationBody
    → RetroshadesExecution
    → Step (Unit {0})
unfolding with_invocation load_footprint
read_body snapshot_source resources tx_source source (OperationBody.invoke_host_function host_fn)
      x =
    load_footprint snapshot_source (full_footprint resources)
      (with_invocation host_fn source tx_source x)
read_body snapshot_source resources tx_source source (OperationBody.other _) x =
    (err not_soroban_tx, x)

read_operations :
    SnapshotSource
    → SorobanResources
    → MuxedAccount
    → List Operation
    → RetroshadesExecution
    → Step (Unit {0})
unfolding read_body
read_operations snapshot_source resources tx_source [] x = (err not_soroban_tx, x)
read_operations snapshot_source resources tx_source (op ∷ _) x =
    read_body snapshot_source resources tx_source op.source_account op.body x

read_ext :
    SnapshotSource → TransactionV1Envelope → TransactionExt → RetroshadesExecution → Step (Unit {0})
unfolding read_operations
read_ext snapshot_source envelope (TransactionExt.v1 soroban) x =
    read_operations snapshot_source soroban.resources envelope.tx.source_account
      envelope.tx.operations (record x { resources = some soroban.resources })
read_ext snapshot_source envelope TransactionExt.v0 x = (err not_soroban_tx, x)

unfoldable pub build_current_state :
    SnapshotSource → TransactionV1Envelope → RetroshadesExecution → Step (Unit {0})
unfolding read_ext
build_current_state snapshot_source envelope x = read_ext snapshot_source envelope envelope.tx.ext x
