-- ===== src/Tests/Running.antt =====
-- Running the host on a built object, with a host that exports one event.
use retroshade.Base.{
  true, [], ◌∷◌, Option, none, some, ◌≡◌, refl, inl, inr, Bool-cases, subst, ◌==◌,
}
use retroshade.Xdr.Value.{ScVal, OptMap}
use retroshade.Xdr.Ledger.{LedgerKey, LedgerKey-eq}
use retroshade.Execution.{panic, HostResult, RetroshadesExecution, RetroshadeExport, new}
use retroshade.State.Build.{account_id_of}
use retroshade.State.Reset.Reference.{FindPlaces, ResetTo, soroban_changes, reset-ResetTo}
use retroshade.State.Lives.{SourceLives, lives, all_live, expires}
use retroshade.Svm.Calls.{Invocation, Recording, RecordingResult, InvokeHostFunctionResult, Host}
use retroshade.Svm.Encode.{ttl_key}
use retroshade.Svm.Pairs.{Writes}
use retroshade.Svm.Readable.{Readable, ReadableRecording}
use retroshade.Retroshade.{build_from_envelope_and_meta, retroshade_enforcing, retroshade_recording}
use retroshade.Retroshade.PreState.{Invokes}
use retroshade.Retroshade.Ready.{IsReady, invocation_context, build-IsReady}
use retroshade.Retroshade.Run.{
  Subject, Encodes, Reads, host_answer, retroshade_enforcing-answer, retroshade_enforcing-panic,
}
use retroshade.Retroshade.Recording.{
  RecordsReadable, Records, recording_answer, retroshade_recording-answer,
}
use retroshade.Tests.Data.{
  persistent_key, after, source_of, update_meta, soroban_data, invocation, invoke_operation,
  envelope, loaded,
}

abbrev pub one_event : RetroshadeExport
one_event = record {
  contract_id = 7 ∷ [];
  target = ScVal.symbol (b't' ∷ []);
  event_object = ScVal.map OptMap.no_map;
}

abbrev pub exported : InvokeHostFunctionResult
exported = record {
  encoded_invoke_result = HostResult.ok [];
  ledger_changes = [];
  encoded_contract_events = (5 ∷ []) ∷ [];
  retroshades = one_event ∷ [];
}

abbrev recorded : RecordingResult
recorded = record {
  invoke_result = HostResult.ok ScVal.void;
  ledger_changes = [];
  contract_events = [];
  retroshades = one_event ∷ [];
}

abbrev key_of : Option LedgerKey → HostResult LedgerKey
key_of none = HostResult.err []
key_of (some k) = HostResult.ok k

abbrev pub echo : Host
echo = record {
  host_function_to_xdr = λ f. some f;
  resources_to_xdr = λ _. some [];
  account_to_xdr = λ a. some a.ed25519;
  auth_to_xdr = λ a. some a;
  entry_to_xdr = λ e. some (1 ∷ e.ext);
  key_to_xdr = λ _. some (2 ∷ []);
  ttl_to_xdr = λ t. some (t.live_until_ledger_seq ∷ t.key_hash);
  key_from_xdr = λ _. none;
  entry_from_xdr = λ _. none;
  value_from_xdr = λ _. some ScVal.void;
  event_from_xdr = λ b. some b;
  sha256 = λ b. b;
  discriminant = λ _. [];
  ledger_entry_to_ledger_key = λ e. key_of (ttl_key e.payload);
  reset_unlimited = HostResult.ok tt;
  invoke_host_function = λ _. (HostResult.ok exported, []);
  invoke_host_function_in_recording_mode = λ _. (HostResult.ok recorded, []);
}

pub echo-Writes : Writes echo
echo-Writes = record {
  host_function = λ f. (f, refl);
  resources = λ _. ([], refl);
  account = λ a. (a.ed25519, refl);
  auth = λ a. (a, refl);
  entry = λ e. (1 ∷ e.ext, refl);
  key = λ _. (2 ∷ [], refl);
  ttl = λ t. (t.live_until_ledger_seq ∷ t.key_hash, refl);
}

pub echo-Reads : Reads echo
echo-Reads i res h =
    let same : exported ≡ res = cc in
    subst (Readable echo) same
      (record { result = (ScVal.void, refl); changes = tt; events = ((5 ∷ [], refl), tt) })

pub source-SourceLives : SourceLives (source_of after)
unfolding lives
source-SourceLives k x h = elim (Bool-cases (k == persistent_key)) [
  | inl q ↦
      let e : HostResult.ok (some (after, some 100)) ≡ HostResult.ok (some x) = rw q at h in
      let same : (after, some 100) ≡ x = cc in subst (λ y. lives y ≡ true) same refl
  | inr q ↦ let e : HostResult.ok none ≡ HostResult.ok (some x) = rw q at h in cc
]

pub envelope-Invokes : Invokes envelope soroban_data invoke_operation invocation
envelope-Invokes = record { ops = []; is_soroban = refl; first = refl; invokes = refl }

build-IsReady_example :
    IsReady
      (invocation_context envelope soroban_data invoke_operation invocation [])
      (build_from_envelope_and_meta (source_of after) envelope update_meta [] (new [])).1
build-IsReady_example =
    build-IsReady (source_of after) envelope update_meta [] [] source-SourceLives envelope-Invokes

abbrev pub subject : Subject
subject = record {
  host_function = 1 ∷ [];
  auth_entries = [];
  resources = soroban_data.resources;
  source_account = record { ed25519 = 9 ∷ [] };
  ledger_info = [];
}

abbrev built : RetroshadesExecution
built = (build_from_envelope_and_meta (source_of after) envelope update_meta [] (new [])).1

built-IsReady :
    IsReady (invocation_context envelope soroban_data invoke_operation invocation []) built
built-IsReady =
    build-IsReady (source_of after) envelope update_meta [] [] source-SourceLives envelope-Invokes

retroshade_enforcing-answer_example :
    (i : Invocation) × Encodes echo subject built.target_pre_execution_state (3 ∷ []) i
    × (retroshade_enforcing echo (3 ∷ []) built ≡ host_answer echo i)
unfolding account_id_of
retroshade_enforcing-answer_example =
    retroshade_enforcing-answer echo echo-Writes subject built (3 ∷ []) echo-Reads built-IsReady

abbrev pub dead : RetroshadesExecution
dead = record (loaded ((after, none) ∷ [])) {
  host_function = some (1 ∷ []);
  resources = some soroban_data.resources;
  source_account = some (record { ed25519 = 9 ∷ [] });
}

retroshade_enforcing-panic_example : retroshade_enforcing echo (3 ∷ []) dead ≡ panic
unfolding all_live lives expires
retroshade_enforcing-panic_example =
    retroshade_enforcing-panic echo echo-Writes subject dead (3 ∷ []) refl refl

reset-ResetTo_example : FindPlaces × ResetTo (soroban_changes update_meta) update_meta built
reset-ResetTo_example = reset-ResetTo update_meta built

pub echo-RecordsReadable : RecordsReadable echo
echo-RecordsReadable r res h =
    let same : recorded ≡ res = cc in subst (ReadableRecording echo) same tt

retroshade_recording-answer_example :
    (r : Recording) × Records subject (source_of after) dead (3 ∷ []) r
    × (retroshade_recording echo (3 ∷ []) (source_of after) dead ≡ recording_answer echo r)
retroshade_recording-answer_example =
    retroshade_recording-answer echo echo-Writes subject (source_of after) dead (3 ∷ [])
      echo-RecordsReadable refl
