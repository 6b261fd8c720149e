-- ===== src/Retroshade/Packed.antt =====
-- From the envelope of a transaction to rows for the database: `build_from_envelope_and_meta` and
-- `retroshade_packed` of retroshade/src/lib.rs.
use retroshade.Base.{true, false, ◌≡◌, ◌∙◌}
use retroshade.Xdr.Value.{Bytes, Opaque}
use retroshade.Xdr.Transaction.{
  SorobanTransactionData, InvokeHostFunctionOp, Operation, TransactionV1Envelope, TransactionMeta,
}
use retroshade.Execution.{ok, SnapshotSource, RetroshadesExecution, RetroshadeExecutionResult, new}
use retroshade.State.Build.{account_id_of, source_or}
use retroshade.State.Binaries.{Binaries}
use retroshade.State.Lives.{SourceLives}
use retroshade.Svm.Calls.{Invocation, Recording, Host}
use retroshade.Svm.Pairs.{Writes}
use retroshade.Conversion.Codec.{Codec}
use retroshade.Conversion.Shape.{Succeeds, Returns}
use retroshade.Export.{first_failed}
use retroshade.Export.Rows.{PacksAll, all_rows, prepare-rows}
use retroshade.Retroshade.{
  build_from_envelope_and_meta, retroshade_packed, retroshade_packed_recording,
}
use retroshade.Retroshade.PreState.{Invokes}
use retroshade.Retroshade.Ready.{context_of, build-IsReady}
use retroshade.Retroshade.Recording.{
  RecordsReadable, Records, recording_answer, retroshade_recording-answer,
}
use retroshade.Retroshade.Run.{
  Subject, full_context, Encodes, Reads, host_answer, retroshade_enforcing-answer,
}

-- What the envelope asks to run.
abbrev pub subject_of :
    TransactionV1Envelope
    → SorobanTransactionData
    → Operation
    → InvokeHostFunctionOp
    → Opaque
    → Subject
subject_of env soroban op host_fn ledger_info = record {
  host_function = host_fn.host_function;
  auth_entries = host_fn.auth;
  resources = soroban.resources;
  source_account = account_id_of (source_or op.source_account env.tx.source_account);
  ledger_info = ledger_info;
}

-- A successful run with exports that can be rows.
pub record HasRows (out : RetroshadeExecutionResult) : Type 0 where
  pub successful : first_failed out.diagnostic ≡ false
  pub rows : all_rows out.retroshades ≡ true

module _ (h : Host) (w : Writes h) (reads : Reads h) (c : Codec) (works : Succeeds c) where
  -- If the serialiser and the encoders work and the host writes XDR that can be read: a fresh
  -- object is built from the envelope of a transaction that invokes a host function, over a source
  -- that gives a lifetime with each contract entry. If then the host, given the encodings of the
  -- envelope's call, of the object's entries and of their lifetimes, ends successfully with exports
  -- that are maps with symbols for keys, each for a symbol as its target, the packed call returns
  -- one row for each of these exports, in order, with a column for each entry of its map.
  pub build-retroshade_packed :
      (s : SnapshotSource) (env : TransactionV1Envelope) (meta : TransactionMeta)
      (mercury : Binaries) (ledger_info : Opaque) (seed : Bytes) (out : RetroshadeExecutionResult)
      {soroban : SorobanTransactionData} {op : Operation} {host_fn : InvokeHostFunctionOp}
      → SourceLives s
      → Invokes env soroban op host_fn
      → HasRows out
      → ((i : Invocation)
          → Encodes h
              (subject_of env soroban op host_fn ledger_info)
              (build_from_envelope_and_meta s env meta mercury
                (new ledger_info)).1.target_pre_execution_state
              seed
              i
          → host_answer h i ≡ ok out)
      → Returns
          (retroshade_packed h c seed
            (build_from_envelope_and_meta s env meta mercury (new ledger_info)).1)
          (λ p. (p.diagnostic ≡ out.diagnostic) × PacksAll c out.retroshades p.retroshades)
  unfolding retroshade_packed
  build-retroshade_packed s env meta mercury ledger_info seed out {soroban} {op} {host_fn} src inv
        has runs =
      let x = (build_from_envelope_and_meta s env meta mercury (new ledger_info)).1 in
      let (i, enc, run) =
        retroshade_enforcing-answer h w (subject_of env soroban op host_fn ledger_info) x seed reads
          (build-IsReady s env meta mercury ledger_info src inv) in
      let (p, e, good) = prepare-rows c works out has.successful has.rows in
      (p, rw (run ∙ runs i enc) e, good)

module _ (h : Host) (w : Writes h) (reads : RecordsReadable h) (c : Codec)
    (works : Succeeds c) where
  -- If the serialiser and the encoders work, and what the host writes in recording mode can be
  -- read: an object has a full context, and the host, given it with a snapshot that overlays the
  -- object on the source, the lifetimes of both included, ends successfully with exports that are
  -- maps with symbols for keys, each for a symbol as its target. Then the packed recording returns one row for each
  -- of these exports, in order, with a column for each entry of its map.
  pub retroshade_packed_recording-rows :
      (subject : Subject) (s : SnapshotSource) (x : RetroshadesExecution) (seed : Bytes)
      (out : RetroshadeExecutionResult)
      → context_of x ≡ full_context subject
      → HasRows out
      → ((r : Recording) → Records subject s x seed r → recording_answer h r ≡ ok out)
      → Returns
          (retroshade_packed_recording h c seed s x)
          (λ p. (p.diagnostic ≡ out.diagnostic) × PacksAll c out.retroshades p.retroshades)
  unfolding retroshade_packed_recording
  retroshade_packed_recording-rows subject s x seed out context has runs =
      let (r, records, run) = retroshade_recording-answer h w subject s x seed reads context in
      let (p, e, good) = prepare-rows c works out has.successful has.rows in
      (p, rw (run ∙ runs r records) e, good)
