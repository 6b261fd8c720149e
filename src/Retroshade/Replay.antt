-- ===== src/Retroshade/Replay.antt =====
-- Replaying a transaction with its own code: `build_from_envelope_and_meta` and
-- `retroshade_recording` of retroshade/src/lib.rs on the ledger from before the transaction.
use retroshade.Base.{true, List, [], some, ◌≡◌, ◌⊎◌, ap, ◌∙◌}
use retroshade.Xdr.Value.{Bytes, Opaque}
use retroshade.Xdr.Ledger.{LedgerKey, LedgerEntryChange}
use retroshade.Xdr.Transaction.{
  SorobanTransactionData, InvokeHostFunctionOp, Operation, TransactionV1Envelope, TransactionMeta,
}
use retroshade.Execution.{SnapshotSource, HostResult, new}
use retroshade.Snapshot.{entry_answer}
use retroshade.State.Build.{full_footprint}
use retroshade.State.Binaries.Nothing.{replace_binaries-nothing}
use retroshade.State.Lives.{SourceLives}
use retroshade.Ledger.{Ledger, Apart, Unaliased, Applies}
use retroshade.Ledger.View.{view}
use retroshade.Ledger.Load.{Serves, contains}
use retroshade.Svm.Calls.{Recording, Host}
use retroshade.Svm.Pairs.{Writes}
use retroshade.Retroshade.{build_from_envelope_and_meta, retroshade_recording}
use retroshade.Retroshade.PreState.{Invokes, one_operation, build-view}
use retroshade.Retroshade.Ready.{build-IsReady}
use retroshade.Retroshade.Packed.{subject_of}
use retroshade.Retroshade.Recording.{
  RecordsReadable, Records, recording_answer, retroshade_recording-answer,
}

module _ (h : Host) (w : Writes h) (reads : RecordsReadable h) where
  -- If the serialiser works, and what the host writes in recording mode can be read: a fresh object
  -- is built from the envelope and the meta of a transaction that invokes a host function, with no
  -- registered contract, over a source that serves the ledger from after it and gives a lifetime
  -- with each contract entry. Then a recording runs the host once, on the transaction's own call,
  -- and on a snapshot that has under the given key the entry of the ledger from before the
  -- transaction. The key is in the footprint, or the changes leave its slot alone; they change each
  -- entry at most once, create and remove only contract data, and do not touch the key's contract
  -- data under the other durability.
  pub build-retroshade_recording :
      (s : SnapshotSource) (after l : Ledger) (k : LedgerKey) (cs : List LedgerEntryChange)
      (env : TransactionV1Envelope) (meta : TransactionMeta) (ledger_info : Opaque) (seed : Bytes)
      {soroban : SorobanTransactionData} {op : Operation} {host_fn : InvokeHostFunctionOp}
      → Serves s after
      → SourceLives s
      → Applies after cs l
      → Invokes env soroban op host_fn
      → one_operation meta ≡ some cs
      → Unaliased k cs
      → (contains (full_footprint soroban.resources) k ≡ true) ⊎ Apart k cs
      → (r : Recording) × Records
          (subject_of env soroban op host_fn ledger_info)
          s
          (build_from_envelope_and_meta s env meta [] (new ledger_info)).1
          seed
          r
        × (retroshade_recording h seed s
              (build_from_envelope_and_meta s env meta [] (new ledger_info)).1
            ≡ recording_answer h r)
        × (entry_answer (r.ledger_snapshot k) ≡ HostResult.ok (l k))
  build-retroshade_recording s after l k cs env meta ledger_info seed {soroban} {op} {host_fn}
        serves src applies inv one unaliased covered =
      let x = (build_from_envelope_and_meta s env meta [] (new ledger_info)).1 in
      let (r, records, run) =
        retroshade_recording-answer h w (subject_of env soroban op host_fn ledger_info) s x seed
          reads (build-IsReady s env meta [] ledger_info src inv).0 in
      let (y, built, shown) =
        build-view s after l serves k cs applies unaliased env meta [] ledger_info inv one
          covered in
      (
        r,
        records,
        run,
        records.same_view k
            ∙ ap (λ z. view s z k) (ap (λ b. b.1) built ∙ replace_binaries-nothing y)
            ∙ shown,
      )
