-- ===== src/Retroshade/PreState.antt =====
-- The pipeline of `build_from_envelope_and_meta` up to the replacement of the binaries: the
-- overlay that recording mode reads shows the ledger from before the transaction.
use retroshade.Base.{
  map, Bool, true, false, List, [], ◌∷◌, Option, none, some, ◌≡◌, ◌⊎◌, refl, ap, ◌∙◌, inl, inr,
}
use retroshade.Xdr.Value.{Opaque}
use retroshade.Xdr.Ledger.{LedgerKey, LedgerEntryChange}
use retroshade.Xdr.Transaction.{
  SorobanTransactionData, TransactionExt, InvokeHostFunctionOp, OperationBody, Operation,
  TransactionV1Envelope, TransactionMeta, OperationMeta, OperationMetaV2,
}
use retroshade.Execution.{
  SnapshotSource, RetroshadesExecution, HostResult, Outcome, ok, err, panic, ◌>>=◌, new,
}
use retroshade.Snapshot.{find_entry, is_forced, entry_part, entry_answer}
use retroshade.State.Build.{build_current_state, load_footprint, full_footprint, with_invocation}
use retroshade.State.Reset.{
  v1, v2, Tracked, state_reset_to_pre_execution, process_operations, process_changes, finish,
}
use retroshade.State.Binaries.{Binaries, replace_binaries}
use retroshade.Ledger.{Ledger, Apart, Unaliased, Applies}
use retroshade.Ledger.Revert.{after-Apart}
use retroshade.Ledger.View.{view, view_inner}
use retroshade.Ledger.Undo.{Undone, IsLoaded, IsLoaded-view, Undone-view, undone}
use retroshade.Ledger.Load.{Serves, contains, IsPartial, Loads, load_footprint-Loads}
use retroshade.Retroshade.{build_from_envelope_and_meta}

-- The envelope of a transaction that invokes a host function.
pub record Invokes (env : TransactionV1Envelope) (soroban : SorobanTransactionData) (op : Operation)
    (host_fn : InvokeHostFunctionOp) : Type 0 where
  pub ops : List Operation
  pub is_soroban : env.tx.ext ≡ TransactionExt.v1 soroban
  pub first : env.tx.operations ≡ op ∷ ops
  pub invokes : op.body ≡ OperationBody.invoke_host_function host_fn

-- The changes of a meta with one operation, as every such transaction has.
one_v3 : List OperationMeta → Option (List LedgerEntryChange)
one_v3 (m ∷ []) = some m.changes
one_v3 _ = none

one_v4 : List OperationMetaV2 → Option (List LedgerEntryChange)
one_v4 (m ∷ []) = some m.changes
one_v4 _ = none

unfoldable pub one_operation : TransactionMeta → Option (List LedgerEntryChange)
unfolding one_v3 one_v4
one_operation (TransactionMeta.v3 m) = one_v3 m.operations
one_operation (TransactionMeta.v4 m) = one_v4 m.operations
one_operation (TransactionMeta.other _) = none

pub build_current_state-load :
    (s : SnapshotSource) (env : TransactionV1Envelope) (x : RetroshadesExecution)
    {soroban : SorobanTransactionData} {op : Operation} {host_fn : InvokeHostFunctionOp}
    → Invokes env soroban op host_fn
    → build_current_state s env x
      ≡ load_footprint s (full_footprint soroban.resources) (
          with_invocation host_fn op.source_account env.tx.source_account
            (record x { resources = some soroban.resources }))
unfolding build_current_state
build_current_state-load s env x h = rw (h.is_soroban, h.first, h.invokes, build_current_state)

bind-ok {ℓ} : {A : Type ℓ} (r : Outcome A) → (r >>= λ a. ok a) ≡ r
bind-ok (ok a) = refl
bind-ok (err e) = refl
bind-ok panic = refl

reset_v3 :
    (ms : List OperationMeta) (t : Tracked) (cs : List LedgerEntryChange)
    → one_v3 ms ≡ some cs
    → process_operations (map v1 ms) t ≡ process_changes cs none t
unfolding one_v3 process_operations
reset_v3 [] t cs h = cc
reset_v3 (m ∷ []) t cs h =
    let e : m.changes ≡ cs = cc in bind-ok _ ∙ ap (λ c. process_changes c none t) e
reset_v3 (m ∷ n ∷ ms) t cs h = cc

reset_v4 :
    (ms : List OperationMetaV2) (t : Tracked) (cs : List LedgerEntryChange)
    → one_v4 ms ≡ some cs
    → process_operations (map v2 ms) t ≡ process_changes cs none t
unfolding one_v4 process_operations
reset_v4 [] t cs h = cc
reset_v4 (m ∷ []) t cs h =
    let e : m.changes ≡ cs = cc in bind-ok _ ∙ ap (λ c. process_changes c none t) e
reset_v4 (m ∷ n ∷ ms) t cs h = cc

reset-one_operation :
    (meta : TransactionMeta) (x : RetroshadesExecution) (cs : List LedgerEntryChange)
    → one_operation meta ≡ some cs
    → state_reset_to_pre_execution meta x ≡ finish (process_changes cs none (x, false)) x
unfolding one_operation state_reset_to_pre_execution
reset-one_operation (TransactionMeta.v3 m) x cs h =
    ap (λ r. finish r x) (reset_v3 m.operations (x, false) cs h)
reset-one_operation (TransactionMeta.v4 m) x cs h =
    ap (λ r. finish r x) (reset_v4 m.operations (x, false) cs h)
reset-one_operation (TransactionMeta.other o) x cs h = cc

module _ (s : SnapshotSource) (after l : Ledger) (serves : Serves s after) (k : LedgerKey)
    (cs : List LedgerEntryChange) (applies : Applies after cs l) (unaliased : Unaliased k cs) where
  inner_answer : entry_answer (s k) ≡ HostResult.ok (after k)
  inner_answer = let (r, q, e) = serves.answer k in rw q (ap HostResult.ok e)

  module _ (x y : RetroshadesExecution) (requested : Bool)
      (loads : Loads s after serves k requested x y) (no_state : x.target_pre_execution_state ≡ [])
      (no_force : x.force_remove ≡ []) where
    partial : IsPartial s after serves k x
    unfolding find_entry
    partial = inl (rw no_state)

    not_forced : is_forced k y.force_remove ≡ false
    unfolding is_forced
    not_forced = rw (loads.forced, no_force) refl

    full-IsLoaded :
        entry_part (find_entry k y.target_pre_execution_state) ≡ after k → IsLoaded s k (after k) y
    full-IsLoaded e = record { loaded = e; not_forced = not_forced; inner = inner_answer }

    loaded_view : view s y k ≡ HostResult.ok (after k)
    loaded_view = elim (loads.partial partial) [
      | inl e ↦ view_inner s k y e not_forced ∙ inner_answer
      | inr e ↦ IsLoaded-view s k after y (after k) (full-IsLoaded e)
    ]

    -- A state that was loaded for the key, or of which the changes leave the key alone.
    reset_view :
        (requested ≡ true) ⊎ Apart k cs
        → Undone (λ z. view s z k ≡ HostResult.ok (l k)) cs (y, false)
    reset_view (inl r) =
        undone s k after cs l (y, false) applies unaliased (full-IsLoaded (loads.got partial r))
    reset_view (inr a) =
        Undone-view s k after cs l (y, false) (l k) applies a
          (loaded_view ∙ ap HostResult.ok (after-Apart k after cs l applies a))

  -- A fresh object is built from the envelope and the meta of a transaction that invokes a host
  -- function, over a source that serves the ledger from after it. Then loading and resetting
  -- succeed, and the binaries are replaced in an object whose overlay shows, under the key, the
  -- entry of the ledger from before the transaction. The key is in the footprint, or the changes
  -- leave its slot alone; they change each entry at most once, create and remove only contract
  -- data, and do not touch the key's contract data under the other durability.
  pub build-view :
      (env : TransactionV1Envelope) (meta : TransactionMeta) (mercury : Binaries)
      (ledger_info : Opaque) {soroban : SorobanTransactionData} {op : Operation}
      {host_fn : InvokeHostFunctionOp}
      → Invokes env soroban op host_fn
      → one_operation meta ≡ some cs
      → (contains (full_footprint soroban.resources) k ≡ true) ⊎ Apart k cs
      → (x : RetroshadesExecution) × (build_from_envelope_and_meta s env meta mercury
            (new ledger_info)
          ≡ replace_binaries mercury x)
        × (view s x k ≡ HostResult.ok (l k))
  unfolding build_from_envelope_and_meta new with_invocation
  build-view env meta mercury ledger_info {soroban} {op} {host_fn} h one covered =
      let x =
        with_invocation host_fn op.source_account env.tx.source_account
          (record (new ledger_info) { resources = some soroban.resources }) in
      let (y, load, loads) =
        load_footprint-Loads s after serves k (full_footprint soroban.resources) x in
      let (t, run, shown) = reset_view x y _ loads refl refl covered in
      (
        t.0,
        rw
            (
              build_current_state-load s env (new ledger_info) h,
              load,
              reset-one_operation meta y cs one,
              run,
            )
            refl,
        shown,
      )
