-- ===== src/State/Build/Stops.antt =====
-- Where `build_current_state` of retroshade/src/state.rs stops.
use retroshade.Base.{
  Bool, true, false, List, [], ◌∷◌, ◌++◌, Option, none, some, ◌≡◌, ◌⊎◌, refl, ap, sym, ◌∙◌, subst,
  inl, inr,
}
use retroshade.Xdr.Ledger.{LedgerKey}
use retroshade.Xdr.Value.{Hash, MuxedAccount}
use retroshade.Xdr.Transaction.{
  SorobanTransactionData, TransactionExt, InvokeHostFunctionOp, OperationBody, Operation,
  TransactionV1Envelope,
}
use retroshade.Execution.{not_soroban_tx, err, SnapshotSource, RetroshadesExecution}
use retroshade.Retroshade.PreState.{Invokes, build_current_state-load}
use retroshade.State.Build.{build_current_state, load_footprint, with_invocation, account_id_of}
use retroshade.State.Build.Footprint.{Stops, load_footprint-Stops}

abbrev is_call : List Operation → Bool
is_call [] = false
is_call (op ∷ _) = elim op.body [
  | OperationBody.invoke_host_function _ ↦ true
  | OperationBody.other _ ↦ false
]

-- The envelope of a Soroban transaction whose first operation invokes a host function.
unfoldable pub is_invocation : TransactionV1Envelope → Bool
is_invocation env = elim env.tx.ext [
  | TransactionExt.v1 _ ↦ is_call env.tx.operations
  | TransactionExt.v0 ↦ false
]

-- The parts of such an envelope.
pub record HasCall (env : TransactionV1Envelope) : Type 0 where
  pub soroban : SorobanTransactionData
  pub op : Operation
  pub host_fn : InvokeHostFunctionOp
  pub invokes : Invokes env soroban op host_fn

-- The key of the account that calls: the operation's own, or else the transaction's, without the
-- id of a multiplexed account.
abbrev plain_key : MuxedAccount → Hash
plain_key (MuxedAccount.ed25519 key) = key
plain_key (MuxedAccount.muxed_ed25519 m) = m.ed25519

abbrev caller : Option MuxedAccount → MuxedAccount → Hash
caller none tx_source = plain_key tx_source
caller (some source) tx_source = plain_key source

-- The object with the call of the envelope, before its entries are loaded.
abbrev pub called :
    {env : TransactionV1Envelope} → HasCall env → RetroshadesExecution → RetroshadesExecution
called {env} c x = record x {
  resources = some c.soroban.resources;
  auth_entries = c.host_fn.auth;
  host_function = some c.host_fn.host_function;
  source_account = some (record { ed25519 = caller c.op.source_account env.tx.source_account });
}

with_invocation_lem :
    (f : InvokeHostFunctionOp) (source : Option MuxedAccount) (tx_source : MuxedAccount)
    (x : RetroshadesExecution)
    → with_invocation f source tx_source x ≡ record x {
      auth_entries = f.auth;
      host_function = some f.host_function;
      source_account = some (record { ed25519 = caller source tx_source });
    }
unfolding with_invocation account_id_of
with_invocation_lem f none (MuxedAccount.ed25519 k) x = refl
with_invocation_lem f none (MuxedAccount.muxed_ed25519 m) x = refl
with_invocation_lem f (some (MuxedAccount.ed25519 k)) tx_source x = refl
with_invocation_lem f (some (MuxedAccount.muxed_ed25519 m)) tx_source x = refl

module _ (s : SnapshotSource) where
  -- The keys that are read, and then those that are written.
  abbrev both_footprints : {env : TransactionV1Envelope} → HasCall env → List LedgerKey
  both_footprints c =
      c.soroban.resources.footprint.read_only ++ c.soroban.resources.footprint.read_write

  -- What the call does with an envelope.
  abbrev pub Loading : TransactionV1Envelope → RetroshadesExecution → Type 0
  Loading env x =
      ((is_invocation env ≡ false)
        × ((build_current_state s env x).0 ≡ err not_soroban_tx)
        × ((build_current_state s env x).1.target_pre_execution_state
            ≡ x.target_pre_execution_state))
      ⊎ ((is_invocation env ≡ true)
          × ((c : HasCall env) × Stops s (both_footprints c) (called c x)
                (build_current_state s env x)))

  call-Loading :
      (env : TransactionV1Envelope) (x : RetroshadesExecution) (c : HasCall env)
      → is_invocation env ≡ true
      → Loading env x
  call-Loading env x c h =
      let keys = both_footprints c in
      let loads =
        build_current_state-load s env x c.invokes
        ∙ ap (load_footprint s keys) (
            with_invocation_lem c.host_fn c.op.source_account env.tx.source_account
              (record x { resources = some c.soroban.resources })) in
      inr (
        h,
        (
          c,
          subst (Stops s keys (called c x)) (sym loads) (load_footprint-Stops s keys (called c x)),
        ),
      )

  abbrev with_body :
      MuxedAccount
      → SorobanTransactionData
      → Option MuxedAccount
      → OperationBody
      → List Operation
      → TransactionV1Envelope
  with_body tx_source soroban source body ops = record {
    tx = record {
      source_account = tx_source;
      ext = TransactionExt.v1 soroban;
      operations = record { source_account = source; body = body } ∷ ops;
    };
  }

  body-Loading :
      (tx_source : MuxedAccount) (soroban : SorobanTransactionData) (source : Option MuxedAccount)
      (body : OperationBody) (ops : List Operation) (x : RetroshadesExecution)
      → Loading (with_body tx_source soroban source body ops) x
  unfolding is_invocation build_current_state
  body-Loading tx_source soroban source (OperationBody.invoke_host_function host_fn) ops x =
      call-Loading _ x
        (record {
          soroban = soroban;
          op = record {
            source_account = source;
            body = OperationBody.invoke_host_function host_fn;
          };
          host_fn = host_fn;
          invokes = record { ops = ops; is_soroban = refl; first = refl; invokes = refl };
        })
        refl
  body-Loading tx_source soroban source (OperationBody.other b) ops x = inl (refl, refl, refl)

  ext-Loading :
      (tx_source : MuxedAccount) (ext : TransactionExt) (ops : List Operation)
      (x : RetroshadesExecution)
      → Loading
          (record { tx = record { source_account = tx_source; ext = ext; operations = ops } })
          x
  unfolding is_invocation build_current_state
  ext-Loading tx_source TransactionExt.v0 ops x = inl (refl, refl, refl)
  ext-Loading tx_source (TransactionExt.v1 soroban) [] x = inl (refl, refl, refl)
  ext-Loading tx_source (TransactionExt.v1 soroban) (op ∷ ops) x =
      body-Loading tx_source soroban op.source_account op.body ops x

  -- Building the state from an envelope that is no invocation is refused, and loads nothing. From
  -- any other one the object takes the call, its resources, its authorizations and the key of the
  -- account that calls, and the entries that the source has under the keys of the footprint, in the
  -- order of the keys and with their lifetimes, are appended to its state. If the source answers
  -- every key the call succeeds, and else it stops at the first key that the source refuses, with
  -- the source's error and with the entries of the keys before it.
  pub build_current_state-Loading :
      (env : TransactionV1Envelope) (x : RetroshadesExecution) → Loading env x
  build_current_state-Loading env x =
      ext-Loading env.tx.source_account env.tx.ext env.tx.operations x
