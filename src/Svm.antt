-- ===== src/Svm.antt =====
-- retroshade/src/internal.rs: `execute_svm` and `execute_svm_in_recording_mode`. `Outcome` stands
-- for their panics and `HostResult` for their results.
pub mod Calls
pub mod Encode
pub mod Answer
pub mod Pairs
pub mod Readable
pub mod Unchanged
use retroshade.Base.{Bool, List}
use retroshade.Xdr.Value.{Bytes, Opaque, AccountId}
use retroshade.Xdr.Transaction.{SorobanResources}
use retroshade.Execution.{EntryWithLiveUntil, Outcome, ok, ◌>>=◌, HostResult, unwrap}
use retroshade.Svm.Calls.{Invocation, Recording, Host, InvokeHostFunctionHelperResult}
use retroshade.Svm.Encode.{encode_invocation}
use retroshade.Svm.Answer.{svm_result, recording_result}

module _ (h : Host) where
  -- `budget.reset_unlimited()?`, and then the host.
  unfoldable pub run_invocation : Invocation → Outcome (HostResult InvokeHostFunctionHelperResult)
  unfolding svm_result
  run_invocation i = elim h.reset_unlimited [
    | HostResult.err e ↦ ok (HostResult.err e)
    | HostResult.ok _ ↦ svm_result h (h.invoke_host_function i)
  ]

  unfoldable pub execute_svm :
      Bool
      → Opaque
      → SorobanResources
      → AccountId
      → List Opaque
      → Opaque
      → List EntryWithLiveUntil
      → Bytes
      → Outcome (HostResult InvokeHostFunctionHelperResult)
  unfolding encode_invocation run_invocation
  execute_svm enable_diagnostics host_fn resources source_account auth_entries ledger_info
        ledger_entries_with_ttl prng_seed =
      encode_invocation h enable_diagnostics host_fn resources source_account auth_entries
        ledger_info ledger_entries_with_ttl prng_seed
      >>= run_invocation

  -- The encodings of the function and the account are made and not used.
  unfoldable pub execute_svm_in_recording_mode :
      Recording → Outcome (HostResult InvokeHostFunctionHelperResult)
  unfolding recording_result
  execute_svm_in_recording_mode r = do
    _ ← unwrap (h.host_function_to_xdr r.host_fn)
    _ ← unwrap (h.account_to_xdr r.source_account)
    elim h.reset_unlimited [
      | HostResult.err e ↦ ok (HostResult.err e)
      | HostResult.ok _ ↦ recording_result h (h.invoke_host_function_in_recording_mode r)
    ]
