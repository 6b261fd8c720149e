-- ===== src/Retroshade/Recording.antt =====
-- The call `retroshade_recording` of retroshade/src/lib.rs on an object that is ready.
use retroshade.Base.{true, List, some, ◌≡◌, refl, ap, inl, inr}
use retroshade.Xdr.Value.{Bytes}
use retroshade.Xdr.Ledger.{LedgerKey}
use retroshade.Execution.{
  DiagnosticEvent, svm_host, Outcome, ok, err, ◌>>=◌, HostResult, HostResult-cases, SnapshotSource,
  RetroshadesExecution, RetroshadeExecutionResult,
}
use retroshade.Snapshot
use retroshade.Snapshot.{entry_answer}
use retroshade.Snapshot.Overlay.{Overlays, get-Overlays}
use retroshade.Ledger.View.{view}
use retroshade.Svm.{execute_svm_in_recording_mode}
use retroshade.Svm.Calls.{Recording, RecordingResult, Host}
use retroshade.Svm.Answer.{recording_result}
use retroshade.Svm.Pairs.{Writes}
use retroshade.Svm.Readable.{ReadableRecording, recording_result-ReadableRecording}
use retroshade.Retroshade.{execution_result, retroshade_recording}
use retroshade.Retroshade.Ready.{context_of}
use retroshade.Retroshade.Run.{Subject, full_context}

-- The host writes what can be read.
abbrev pub RecordsReadable : Host → Type 0
RecordsReadable h =
    (r : Recording) (res : RecordingResult)
    → (h.invoke_host_function_in_recording_mode r).0 ≡ HostResult.ok res
    → ReadableRecording h res

abbrev answer :
    HostResult RecordingResult × List DiagnosticEvent → Outcome RetroshadeExecutionResult
answer (HostResult.err e, ds) = err (svm_host e)
answer (HostResult.ok res, ds) = ok (record { retroshades = res.retroshades; diagnostic = ds })

abbrev pub recording_answer : Host → Recording → Outcome RetroshadeExecutionResult
recording_answer h r = elim h.reset_unlimited [
  | HostResult.err e ↦ err (svm_host e)
  | HostResult.ok _ ↦ answer (h.invoke_host_function_in_recording_mode r)
]

-- The host is given the subject, and a snapshot that overlays the object on the source, the
-- lifetimes included.
pub record Records (c : Subject) (s : SnapshotSource) (x : RetroshadesExecution) (seed : Bytes)
    (r : Recording) : Type 0 where
  pub diagnostics : r.enable_diagnostics ≡ true
  pub host_function : r.host_fn ≡ c.host_function
  pub source_account : r.source_account ≡ c.source_account
  pub ledger_info : r.ledger_info ≡ c.ledger_info
  pub snapshot :
      (k : LedgerKey)
      → Overlays k x.target_pre_execution_state x.force_remove (s k) (r.ledger_snapshot k)
  pub same_view : (k : LedgerKey) → entry_answer (r.ledger_snapshot k) ≡ view s x k
  pub seed_is : r.prng_seed ≡ seed

module _ (h : Host) (w : Writes h) where
  recording_result-answer :
      (r : HostResult RecordingResult × List DiagnosticEvent)
      → ((res : RecordingResult) → r.0 ≡ HostResult.ok res → ReadableRecording h res)
      → (recording_result h r >>= execution_result) ≡ answer r
  unfolding recording_result
  recording_result-answer (HostResult.err e, ds) p = refl
  recording_result-answer (HostResult.ok res, ds) p =
      let (r, run, exports, events) = recording_result-ReadableRecording h res ds (p res refl) in
      rw (run, exports, events) refl

  recording_mode-answer :
      (r : Recording)
      → RecordsReadable h
      → (execute_svm_in_recording_mode h r >>= execution_result) ≡ recording_answer h r
  unfolding execute_svm_in_recording_mode
  recording_mode-answer r reads =
      let (f, e1) = w.host_function r.host_fn in
      let (a, e2) = w.account r.source_account in
      elim (HostResult-cases h.reset_unlimited) [
        | inl (u, q) ↦
            rw (e1, e2, q)
              (recording_result-answer (h.invoke_host_function_in_recording_mode r) (reads r))
        | inr (e, q) ↦ rw (e1, e2, q) refl
      ]

  -- If the serialiser works and the host writes XDR that can be read, an object with a full context
  -- runs the host once in recording mode, with its function, its account, and a snapshot that
  -- overlays the object on the given source: under each key it has the first entry of the state with
  -- that key, with the lifetime that it has there, or nothing for an entry of `force_remove`, or the
  -- whole answer of the source. The call does not panic: it gives the host's error, or its exports
  -- and diagnostic events, or the error of lifting the budget before the host is run.
  pub retroshade_recording-answer :
      (c : Subject) (s : SnapshotSource) (x : RetroshadesExecution) (seed : Bytes)
      → RecordsReadable h
      → context_of x ≡ full_context c
      → (r : Recording) × Records c s x seed r
        × (retroshade_recording h seed s x ≡ recording_answer h r)
  unfolding retroshade_recording
  retroshade_recording-answer c s x seed reads q =
      let f : x.host_function ≡ some c.host_function = ap (λ k. k.host_function) q in
      let a : x.source_account ≡ some c.source_account = ap (λ k. k.source_account) q in
      let li : x.ledger_info ≡ c.ledger_info = ap (λ k. k.ledger_info) q in
      let r : Recording = record {
        enable_diagnostics = true;
        host_fn = c.host_function;
        source_account = c.source_account;
        ledger_info = x.ledger_info;
        ledger_snapshot = Snapshot.get (Snapshot.new s x.target_pre_execution_state x.force_remove);
        prng_seed = seed;
      } in
      (
        r,
        record {
          diagnostics = refl;
          host_function = refl;
          source_account = refl;
          ledger_info = li;
          snapshot = λ k. get-Overlays s x.target_pre_execution_state x.force_remove k;
          same_view = λ k. refl;
          seed_is = refl;
        },
        rw (f, a) (recording_mode-answer r reads),
      )
