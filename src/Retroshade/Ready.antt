-- ===== src/Retroshade/Ready.antt =====
-- What `build_from_envelope_and_meta` leaves for the host: the transaction's own invocation, and
-- entries that all have the lifetimes that they need.
use retroshade.Base.{List, [], ◌∷◌, Option, none, some, ◌≡◌, refl, ◌∙◌, inl, inr, Bool}
use retroshade.Xdr.Value.{Opaque, AccountId}
use retroshade.Xdr.Ledger.{LedgerKey}
use retroshade.Xdr.Transaction.{
  SorobanResources, SorobanTransactionData, InvokeHostFunctionOp, Operation, TransactionV1Envelope,
  TransactionMeta,
}
use retroshade.Execution.{
  EntryWithLiveUntil, Outcome, ok, err, panic, Step, and_then, SnapshotSource, RetroshadesExecution,
  HostResult-cases, new,
}
use retroshade.State.Build.{
  load_footprint, push_entry, full_footprint, with_invocation, account_id_of, source_or,
}
use retroshade.State.Reset.{add_entry, update_entries, state_reset_to_pre_execution}
use retroshade.State.Binaries.{Binaries, replaced_state, replace_binaries, store_state}
use retroshade.State.Binaries.Lifetimes.{replace_binaries-Lives}
use retroshade.State.Lives.{
  SourceLives, Lives, all_live, IsKept, Lives-IsKept, load_footprint-Lives, reset-IsKept,
}
use retroshade.Retroshade.{build_from_envelope_and_meta}
use retroshade.Retroshade.PreState.{Invokes, build_current_state-load}

-- What the object hands to the host, apart from the entries.
pub record Context : Type 0 where
  pub host_function : Option Opaque
  pub auth_entries : List Opaque
  pub resources : Option SorobanResources
  pub source_account : Option AccountId
  pub ledger_info : Opaque

abbrev pub context_of : RetroshadesExecution → Context
context_of x = record {
  host_function = x.host_function;
  auth_entries = x.auth_entries;
  resources = x.resources;
  source_account = x.source_account;
  ledger_info = x.ledger_info;
}

-- The context that the envelope asks for.
abbrev pub invocation_context :
    TransactionV1Envelope
    → SorobanTransactionData
    → Operation
    → InvokeHostFunctionOp
    → Opaque
    → Context
invocation_context env soroban op host_fn ledger_info = record {
  host_function = some host_fn.host_function;
  auth_entries = host_fn.auth;
  resources = some soroban.resources;
  source_account = some (account_id_of (source_or op.source_account env.tx.source_account));
  ledger_info = ledger_info;
}

abbrev pub IsReady : Context → RetroshadesExecution → Type 0
IsReady c x = (context_of x ≡ c) × Lives x

push_entry-context :
    (o : Option EntryWithLiveUntil) (x : RetroshadesExecution)
    → context_of (push_entry o x) ≡ context_of x
unfolding push_entry
push_entry-context none x = refl
push_entry-context (some e) x = refl

load_footprint-context :
    (s : SnapshotSource) (keys : List LedgerKey) (x : RetroshadesExecution)
    → context_of (load_footprint s keys x).1 ≡ context_of x
unfolding load_footprint
load_footprint-context s [] x = refl
load_footprint-context s (k ∷ ks) x = elim (HostResult-cases (s k)) [
  | inl (o, q) ↦
      rw (q, load_footprint) (load_footprint-context s ks (push_entry o x) ∙ push_entry-context o x)
  | inr (e, q) ↦ rw (q, load_footprint) refl
]

store_state-context :
    (o : Outcome (List EntryWithLiveUntil × Bool)) (x : RetroshadesExecution)
    → context_of (store_state o x).1 ≡ context_of x
store_state-context (ok r) x = refl
store_state-context (err e) x = refl
store_state-context panic x = refl

IsReady-IsKept : (c : Context) → IsKept (IsReady c)
unfolding add_entry update_entries
IsReady-IsKept c = record {
  removes = λ cur x h. (h.0, Lives-IsKept.removes cur x h.1);
  adds = λ e t h. (h.0, Lives-IsKept.adds e t h.1);
  updates = λ e t h. (h.0, Lives-IsKept.updates e t h.1);
}

replace_binaries-IsReady :
    (c : Context) (mercury : Binaries) (x : RetroshadesExecution)
    → IsReady c x
    → IsReady c (replace_binaries mercury x).1
replace_binaries-IsReady c mercury x h = (
  unfold replace_binaries in
      store_state-context (replaced_state mercury x.target_pre_execution_state) x ∙ h.0,
  replace_binaries-Lives mercury x h.1,
)

and_then-keeps {ℓ κ} :
    {A : Type ℓ} {B : Type κ} (P : RetroshadesExecution → Type 0) (o : Step A)
    (f : A → RetroshadesExecution → Step B)
    → P o.1
    → ((a : A) (x : RetroshadesExecution) → P x → P (f a x).1)
    → P (and_then o f).1
and_then-keeps P (ok a, x) f p k = k a x p
and_then-keeps P (err e, x) f p k = p
and_then-keeps P (panic, x) f p k = p

-- A fresh object is built from the envelope of a transaction that invokes a host function, over a
-- source that gives a lifetime with each contract entry. Then the object is ready to invoke this
-- function, with the transaction's authorizations, resources and account, and each of its contract
-- entries has a lifetime: also if the call fails, and whatever the meta and the binaries are.
pub build-IsReady :
    (s : SnapshotSource) (env : TransactionV1Envelope) (meta : TransactionMeta) (mercury : Binaries)
    (ledger_info : Opaque) {soroban : SorobanTransactionData} {op : Operation}
    {host_fn : InvokeHostFunctionOp}
    → SourceLives s
    → Invokes env soroban op host_fn
    → IsReady
        (invocation_context env soroban op host_fn ledger_info)
        (build_from_envelope_and_meta s env meta mercury (new ledger_info)).1
unfolding build_from_envelope_and_meta new with_invocation all_live
build-IsReady s env meta mercury ledger_info {soroban} {op} {host_fn} src inv =
    let c = invocation_context env soroban op host_fn ledger_info in
    let x =
      with_invocation host_fn op.source_account env.tx.source_account
        (record (new ledger_info) { resources = some soroban.resources }) in
    let keys = full_footprint soroban.resources in
    rw (build_current_state-load s env (new ledger_info) inv) (
      and_then-keeps (IsReady c) (load_footprint s keys x) _
        (load_footprint-context s keys x, load_footprint-Lives s keys x src refl)
        λ _ y ready.
          and_then-keeps (IsReady c) (state_reset_to_pre_execution meta y) _
            (reset-IsKept (IsReady c) (IsReady-IsKept c) meta y ready)
            λ _ z r. replace_binaries-IsReady c mercury z r)
