-- ===== src/Tests/Packed.antt =====
-- From an envelope to rows, with a host that exports one event, and where loading stops.
use retroshade.Base.{
  true, List, [], ◌∷◌, ◌++◌, Option, none, some, ◌≡◌, refl, sym, ap, ◌∙◌, subst, inl, inr,
}
use retroshade.Snapshot.Overlay.{Overlays}
use retroshade.Execution.{
  EntryWithLiveUntil, RetroshadesExecution, ok, HostResult, DiagnosticEvent,
  RetroshadeExecutionResult, new,
}
use retroshade.State.Build.Stops.{Loading, build_current_state-Loading}
use retroshade.Svm.Calls.{InvokeHostFunctionResult, Host, RecordingResult, Recording}
use retroshade.Svm.Pairs.{Writes}
use retroshade.Svm.Readable.{Readable, ReadableRecording}
use retroshade.Conversion.Shape.{Returns}
use retroshade.Export.{first_failed}
use retroshade.Export.Rows.{PacksAll, all_rows}
use retroshade.Retroshade.{
  build_from_envelope_and_meta, retroshade_packed, retroshade_packed_recording,
  retroshade_recording,
}
use retroshade.Retroshade.Run.{Reads}
use retroshade.Retroshade.Recording.{RecordsReadable, Records, recording_answer}
use retroshade.Retroshade.Replay.{build-retroshade_recording}
use retroshade.Ledger.{change_key}
use retroshade.Snapshot.{entry_key, entry_answer}
use retroshade.Retroshade.PreState.{one_operation}
use retroshade.Tests.Pipeline.{source-Serves, update-Applies, key_requested}
use retroshade.Retroshade.Packed.{
  subject_of, HasRows, build-retroshade_packed, retroshade_packed_recording-rows,
}
use retroshade.Xdr.Value.{ScVal}
use retroshade.Tests.Data.{
  before, after, persistent_key, ledger_with, source_of, update_changes, update_meta, soroban_data,
  invocation, invoke_operation, envelope,
}
use retroshade.Tests.Columns.{plain, plain-Succeeds, export}
use retroshade.Tests.Running.{
  echo, echo-Writes, echo-RecordsReadable, source-SourceLives, envelope-Invokes, dead, subject,
}

abbrev row_result : InvokeHostFunctionResult
row_result = record {
  encoded_invoke_result = HostResult.ok [];
  ledger_changes = [];
  encoded_contract_events = [];
  retroshades = export ∷ [];
}

abbrev good_event : DiagnosticEvent
good_event = record { in_successful_contract_call = true; event = [] }

abbrev row_host : Host
row_host = record echo { invoke_host_function = λ _. (HostResult.ok row_result, good_event ∷ []) }

row_host-Writes : Writes row_host
row_host-Writes = record {
  host_function = echo-Writes.host_function;
  resources = echo-Writes.resources;
  account = echo-Writes.account;
  auth = echo-Writes.auth;
  entry = echo-Writes.entry;
  key = echo-Writes.key;
  ttl = echo-Writes.ttl;
}

row_host-Reads : Reads row_host
row_host-Reads i res h =
    let same : row_result ≡ res = cc in
    subst (Readable row_host) same (record { result = (_, refl); changes = tt; events = tt })

abbrev row_output : RetroshadeExecutionResult
row_output = record { retroshades = export ∷ []; diagnostic = good_event ∷ [] }

row_output-HasRows : HasRows row_output
unfolding first_failed all_rows
row_output-HasRows = record { successful = refl; rows = refl }

build-retroshade_packed_example :
    Returns
      (retroshade_packed row_host plain
        (3 ∷ [])
        (build_from_envelope_and_meta (source_of after) envelope update_meta [] (new [])).1)
      (λ p. (p.diagnostic ≡ row_output.diagnostic) × PacksAll plain (export ∷ []) p.retroshades)
build-retroshade_packed_example =
    build-retroshade_packed row_host row_host-Writes row_host-Reads plain plain-Succeeds
      (source_of after) envelope update_meta [] [] (3 ∷ []) row_output source-SourceLives
      envelope-Invokes row_output-HasRows (λ i _. refl)

-- A source that answers, with an entry under the one key of the footprint.
build_current_state-Loading_example : Loading (source_of after) envelope (new [])
build_current_state-Loading_example =
    build_current_state-Loading (source_of after) envelope (new [])

build-retroshade_recording_example :
    (r : Recording) × Records
      (subject_of envelope soroban_data invoke_operation invocation [])
      (source_of after)
      (build_from_envelope_and_meta (source_of after) envelope update_meta [] (new [])).1
      (3 ∷ [])
      r
    × (retroshade_recording echo
          (3 ∷ [])
          (source_of after)
          (build_from_envelope_and_meta (source_of after) envelope update_meta [] (new [])).1
        ≡ recording_answer echo r)
    × (entry_answer (r.ledger_snapshot persistent_key)
        ≡ HostResult.ok (ledger_with before persistent_key))
unfolding one_operation entry_key change_key
build-retroshade_recording_example =
    build-retroshade_recording echo echo-Writes echo-RecordsReadable (source_of after)
      (ledger_with after) (ledger_with before) persistent_key update_changes envelope update_meta []
      (3 ∷ []) source-Serves source-SourceLives update-Applies envelope-Invokes refl
      (inl refl, (inl refl, tt)) (inl key_requested)

abbrev row_recording : RecordingResult
row_recording = record {
  invoke_result = HostResult.ok ScVal.void;
  ledger_changes = [];
  contract_events = [];
  retroshades = export ∷ [];
}

-- The object of an invocation, with one entry that has a lifetime.
abbrev alive : RetroshadesExecution
alive = record dead { target_pre_execution_state = (before, some 100) ∷ [] }

-- Contract data is refused unless there is an entry with a lifetime.
abbrev judged : HostResult (Option EntryWithLiveUntil) → HostResult RecordingResult
judged (HostResult.ok (some (_, some _))) = HostResult.ok row_recording
judged _ = HostResult.err []

abbrev row_recorder : Host
row_recorder = record row_host {
  invoke_host_function_in_recording_mode =
      λ r. (judged (r.ledger_snapshot persistent_key), good_event ∷ []);
}

row_recorder-Writes : Writes row_recorder
row_recorder-Writes = record {
  host_function = echo-Writes.host_function;
  resources = echo-Writes.resources;
  account = echo-Writes.account;
  auth = echo-Writes.auth;
  entry = echo-Writes.entry;
  key = echo-Writes.key;
  ttl = echo-Writes.ttl;
}

row_recorder-RecordsReadable : RecordsReadable row_recorder
row_recorder-RecordsReadable r res h = judged-Readable (r.ledger_snapshot persistent_key) res h
  where
    judged-Readable :
        (a : HostResult (Option EntryWithLiveUntil)) (res : RecordingResult)
        → judged a ≡ HostResult.ok res
        → ReadableRecording row_recorder res
    judged-Readable (HostResult.ok (some (e, some n))) res h =
        let same : row_recording ≡ res = cc in subst (ReadableRecording row_recorder) same tt
    judged-Readable (HostResult.ok (some (e, none))) res h = cc
    judged-Readable (HostResult.ok none) res h = cc
    judged-Readable (HostResult.err e) res h = cc

only_entry :
    (bs behind : List EntryWithLiveUntil) (x e : EntryWithLiveUntil)
    → x ∷ [] ≡ bs ++ e ∷ behind
    → x ≡ e
only_entry [] behind x e h = cc
only_entry (b ∷ []) behind x e h = cc
only_entry (b ∷ c ∷ bs) behind x e h = cc

-- The snapshot answers with the loaded entry and its lifetime.
alive-answer :
    (a : HostResult (Option EntryWithLiveUntil))
    → Overlays persistent_key alive.target_pre_execution_state [] (source_of after persistent_key) a
    → a ≡ HostResult.ok (some (before, some 100))
unfolding entry_key
alive-answer a (inl (e, first, q)) =
    let same = only_entry first.before first.behind (before, some 100) e first.split in
    q ∙ ap (λ z. HostResult.ok (some z)) (sym same)
alive-answer a (inr (inl (absent, forced, q))) = absurd (absent.0 (refl, refl, refl))
alive-answer a (inr (inr (absent, free, q))) = absurd (absent.0 (refl, refl, refl))

alive-recording_answer :
    (r : Recording)
    → Records subject (source_of after) alive (3 ∷ []) r
    → recording_answer row_recorder r ≡ ok row_output
alive-recording_answer r records =
    rw (alive-answer (r.ledger_snapshot persistent_key) (records.snapshot persistent_key)) refl

retroshade_packed_recording-rows_example :
    Returns
      (retroshade_packed_recording row_recorder plain (3 ∷ []) (source_of after) alive)
      (λ p. (p.diagnostic ≡ row_output.diagnostic) × PacksAll plain (export ∷ []) p.retroshades)
retroshade_packed_recording-rows_example =
    retroshade_packed_recording-rows row_recorder row_recorder-Writes row_recorder-RecordsReadable
      plain plain-Succeeds subject (source_of after) alive (3 ∷ []) row_output refl
      row_output-HasRows alive-recording_answer
