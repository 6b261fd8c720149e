-- ===== src/Svm/Readable.antt =====
-- What comes out of the host, read back.
use retroshade.Base.{List, [], ◌∷◌, Option, none, some, ◌≡◌, refl}
use retroshade.Xdr.Value.{Bytes, Opaque, ScVal}
use retroshade.Xdr.Ledger.{LedgerEntry, LedgerKey}
use retroshade.Execution.{DiagnosticEvent, Outcome, ok, HostResult, unwrap}
use retroshade.Svm.Calls.{
  EncodedChange, LedgerEntryChangeHelper, InvokeHostFunctionResult, RecordingResult, Host,
  InvokeHostFunctionHelperResult, map_all,
}
use retroshade.Svm.Answer.{
  decode_new_value, decode_change, decode_result, svm_result, recording_result,
}

module _ (h : Host) where
  abbrev ReadableEntry : Option Bytes → Type 0
  ReadableEntry none = Unit
  ReadableEntry (some b) = (e : LedgerEntry) × (h.entry_from_xdr b ≡ some e)

  abbrev ReadableResult : HostResult Bytes → Type 0
  ReadableResult (HostResult.ok b) = (v : ScVal) × (h.value_from_xdr b ≡ some v)
  ReadableResult (HostResult.err e) = Unit

  abbrev ReadableEvent : Bytes → Type 0
  ReadableEvent b = (v : Opaque) × (h.event_from_xdr b ≡ some v)

  abbrev ReadableChange : EncodedChange → Type 0
  ReadableChange c =
      ((k : LedgerKey) × (h.key_from_xdr c.encoded_key ≡ some k))
      × ReadableEntry c.encoded_new_value

  abbrev Every {ℓ} : {A : Type ℓ} → (A → Type 0) → List A → Type 0
  Every P [] = Unit
  Every P (x ∷ xs) = P x × Every P xs

  -- All XDR of an answer can be read.
  pub record Readable (res : InvokeHostFunctionResult) : Type 0 where
    pub result : ReadableResult res.encoded_invoke_result
    pub changes : Every ReadableChange res.ledger_changes
    pub events : Every ReadableEvent res.encoded_contract_events

  map_all-Every {ℓ κ} :
      {A : Type ℓ} {B : Type κ} (P : A → Type 0) (f : A → Outcome B) (xs : List A)
      → Every P xs
      → ((x : A) → P x → (y : B) × (f x ≡ ok y))
      → (ys : List B) × (map_all f xs ≡ ok ys)
  unfolding map_all
  map_all-Every P f [] all each = ([], refl)
  map_all-Every P f (x ∷ xs) all each =
      let (y, e) = each x all.0 in
      let (ys, es) = map_all-Every P f xs all.1 each in (y ∷ ys, rw (e, es) refl)

  decode_new_value-ok :
      (o : Option Bytes)
      → ReadableEntry o
      → (r : Option LedgerEntry) × (decode_new_value h o ≡ ok r)
  unfolding decode_new_value
  decode_new_value-ok none p = (none, refl)
  decode_new_value-ok (some b) (e, q) = (some e, rw q refl)

  decode_change-ok :
      (c : EncodedChange)
      → ReadableChange c
      → (r : LedgerEntryChangeHelper) × (decode_change h c ≡ ok r)
  unfolding decode_change
  decode_change-ok c ((k, q), p) =
      let (r, e) = decode_new_value-ok c.encoded_new_value p in
      (
        record {
          read_only = c.read_only;
          key = k;
          old_entry_size_bytes = c.old_entry_size_bytes_for_rent;
          new_value = r;
          ttl_change = c.ttl_change;
        },
        rw (q, e) refl,
      )

  decode_result-ok :
      (r : HostResult Bytes)
      → ReadableResult r
      → (v : HostResult ScVal) × (decode_result h r ≡ ok v)
  unfolding decode_result
  decode_result-ok (HostResult.ok b) (v, q) = (HostResult.ok v, rw q refl)
  decode_result-ok (HostResult.err e) p = (HostResult.err e, refl)

  decode_event-ok :
      (b : Bytes) → ReadableEvent b → (v : Opaque) × (unwrap (h.event_from_xdr b) ≡ ok v)
  decode_event-ok b (v, q) = (v, rw q refl)

  -- A readable answer is read, with its exports and the diagnostic events.
  pub svm_result-Readable :
      (res : InvokeHostFunctionResult) (ds : List DiagnosticEvent)
      → Readable res
      → (r : InvokeHostFunctionHelperResult) × (svm_result h (HostResult.ok res, ds)
          ≡ ok (HostResult.ok r))
        × (r.retroshades ≡ res.retroshades)
        × (r.diagnostic_events ≡ ds)
  unfolding svm_result
  svm_result-Readable res ds p =
      let (v, e1) = decode_result-ok res.encoded_invoke_result p.result in
      let (cs, e2) =
        map_all-Every ReadableChange (decode_change h) res.ledger_changes p.changes
          decode_change-ok in
      let (es, e3) =
        map_all-Every ReadableEvent (λ b. unwrap (h.event_from_xdr b)) res.encoded_contract_events
          p.events decode_event-ok in
      (
        record {
          invoke_result = v;
          ledger_changes = cs;
          contract_events = es;
          diagnostic_events = ds;
          retroshades = res.retroshades;
        },
        rw (e1, e2, e3) refl,
        refl,
        refl,
      )

  abbrev pub ReadableRecording : RecordingResult → Type 0
  ReadableRecording res = Every ReadableChange res.ledger_changes

  pub recording_result-ReadableRecording :
      (res : RecordingResult) (ds : List DiagnosticEvent)
      → ReadableRecording res
      → (r : InvokeHostFunctionHelperResult) × (recording_result h (HostResult.ok res, ds)
          ≡ ok (HostResult.ok r))
        × (r.retroshades ≡ res.retroshades)
        × (r.diagnostic_events ≡ ds)
  unfolding recording_result
  recording_result-ReadableRecording res ds p =
      let (cs, e) =
        map_all-Every ReadableChange (decode_change h) res.ledger_changes p decode_change-ok in
      (
        record {
          invoke_result = res.invoke_result;
          ledger_changes = cs;
          contract_events = res.contract_events;
          diagnostic_events = ds;
          retroshades = res.retroshades;
        },
        rw e refl,
        refl,
        refl,
      )
