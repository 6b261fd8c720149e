-- ===== src/Svm/Answer.antt =====
-- retroshade/src/internal.rs: what is read from the answers of the host. `Outcome` stands for a
-- panic, `HostResult` for the result; an error of the host is handed on.
use retroshade.Base.{List, Option, none, some}
use retroshade.Xdr.Value.{Bytes, ScVal}
use retroshade.Xdr.Ledger.{LedgerEntry}
use retroshade.Execution.{DiagnosticEvent, Outcome, ok, ◌>>=◌, HostResult, unwrap}
use retroshade.Svm.Calls.{
  EncodedChange, LedgerEntryChangeHelper, InvokeHostFunctionResult, RecordingResult, Host,
  InvokeHostFunctionHelperResult, map_all,
}

module _ (h : Host) where
  -- `encoded_new_value.map(|v| LedgerEntry::from_xdr(v, …).unwrap())`
  unfoldable pub decode_new_value : Option Bytes → Outcome (Option LedgerEntry)
  decode_new_value none = ok none
  decode_new_value (some v) = do e ← unwrap (h.entry_from_xdr v); ok (some e)

  -- `From<LedgerEntryChange>`
  unfoldable pub decode_change : EncodedChange → Outcome LedgerEntryChangeHelper
  unfolding decode_new_value
  decode_change c = do
    key ← unwrap (h.key_from_xdr c.encoded_key)
    new_value ← decode_new_value c.encoded_new_value
    ok (record {
      read_only = c.read_only;
      key = key;
      old_entry_size_bytes = c.old_entry_size_bytes_for_rent;
      new_value = new_value;
      ttl_change = c.ttl_change;
    })

  unfoldable pub decode_result : HostResult Bytes → Outcome (HostResult ScVal)
  decode_result (HostResult.ok v) = do r ← unwrap (h.value_from_xdr v); ok (HostResult.ok r)
  decode_result (HostResult.err e) = ok (HostResult.err e)

  unfoldable pub svm_result :
      HostResult InvokeHostFunctionResult × List DiagnosticEvent
      → Outcome (HostResult InvokeHostFunctionHelperResult)
  unfolding decode_result decode_change map_all
  svm_result (HostResult.err e, events) = ok (HostResult.err e)
  svm_result (HostResult.ok res, events) = do
    invoke_result ← decode_result res.encoded_invoke_result
    changes ← map_all decode_change res.ledger_changes
    contract_events ← map_all (λ v. unwrap (h.event_from_xdr v)) res.encoded_contract_events
    ok (
        HostResult.ok (record {
          invoke_result = invoke_result;
          ledger_changes = changes;
          contract_events = contract_events;
          diagnostic_events = events;
          retroshades = res.retroshades;
        }))

  unfoldable pub recording_result :
      HostResult RecordingResult × List DiagnosticEvent
      → Outcome (HostResult InvokeHostFunctionHelperResult)
  unfolding decode_change map_all
  recording_result (HostResult.err e, events) = ok (HostResult.err e)
  recording_result (HostResult.ok res, events) = do
    changes ← map_all decode_change res.ledger_changes
    ok (
        HostResult.ok (record {
          invoke_result = res.invoke_result;
          ledger_changes = changes;
          contract_events = res.contract_events;
          diagnostic_events = events;
          retroshades = res.retroshades;
        }))
