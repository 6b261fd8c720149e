-- ===== src/Standalone/Loads.antt =====
-- Loading the current state over `DynamicSnapshot` of retroshade/src/bin/standalone.rs.
use retroshade.Base.{Option, none, some, ◌≡◌, sym, ap, ◌∙◌, inl, inr}
use retroshade.Xdr.Ledger.{LedgerKey, LedgerKeyAccount}
use retroshade.Xdr.Transaction.{
  SorobanTransactionData, InvokeHostFunctionOp, Operation, TransactionV1Envelope,
}
use retroshade.Execution.{
  EntryWithLiveUntil, ok, ◌>>=◌, >>=-eq-ok, HostResult, unwrap, SnapshotSource,
  RetroshadesExecution,
}
use retroshade.State.Build.{build_current_state, full_footprint, with_invocation}
use retroshade.State.Build.Footprint.{load_footprint-Stops}
use retroshade.Retroshade.PreState.{Invokes, build_current_state-load}
use retroshade.Standalone.Database.{Query, Db}
use retroshade.Standalone.{
  row_entry, get_ttl, trust_row, trustline_row, account_entry, account_row, contract_row, code_row,
  data_row, get_trustline, get_account, get_code, get_data, get,
}
use retroshade.Standalone.Lifetimes.{Answers}

-- The answer is no error of the host.
abbrev IsAnswer : HostResult (Option EntryWithLiveUntil) → Type 0
IsAnswer r = (o : Option EntryWithLiveUntil) × (r ≡ HostResult.ok o)

module _ (db : Db) where
  trustline_row-IsAnswer :
      (row : Option db.Row) (r : HostResult (Option EntryWithLiveUntil))
      → trustline_row db row ≡ ok r
      → IsAnswer r
  trustline_row-IsAnswer none r h = (none, cc)
  trustline_row-IsAnswer (some row) r h =
      let (e, e1, r1) =
        >>=-eq-ok (row_entry db row) (λ entry. ok (HostResult.ok (some (entry, none)))) h in
      (some (e, none), cc)

  account_row-IsAnswer :
      (k : LedgerKeyAccount) (row : Option db.Row) (r : HostResult (Option EntryWithLiveUntil))
      → account_row db k row ≡ ok r
      → IsAnswer r
  account_row-IsAnswer k none r h = (none, cc)
  account_row-IsAnswer k (some row) r h =
      let (b, e1, r1) =
        >>=-eq-ok (unwrap (db.get_i64 0 row))
          (λ balance. ok (HostResult.ok (some (account_entry db k balance, none)))) h in
      (some (account_entry db k b, none), cc)

  contract_row-IsAnswer :
      (k : LedgerKey) (row : Option db.Row) (r : HostResult (Option EntryWithLiveUntil))
      → contract_row db k row ≡ ok r
      → IsAnswer r
  contract_row-IsAnswer k none r h = (none, cc)
  contract_row-IsAnswer k (some row) r h =
      let (e, e1, r1) =
        >>=-eq-ok (row_entry db row)
          (λ entry. get_ttl db k >>= λ ttl. ok (HostResult.ok (some (entry, some ttl)))) h in
      let (t, e2, r2) =
        >>=-eq-ok (get_ttl db k) (λ ttl. ok (HostResult.ok (some (e, some ttl)))) r1 in
      (some (e, some t), cc)

  get-IsAnswer :
      (k : LedgerKey) (r : HostResult (Option EntryWithLiveUntil)) → get db k ≡ ok r → IsAnswer r
  unfolding get get_trustline get_account get_code get_data
  get-IsAnswer (LedgerKey.trustline k) r h =
      let (row, e, q) = >>=-eq-ok (trust_row db k) (trustline_row db) h in
      trustline_row-IsAnswer row r q
  get-IsAnswer (LedgerKey.account k) r h =
      let (row, e, q) =
        >>=-eq-ok (unwrap (db.query (Query.account (db.strkey_ed25519 k.account_id.ed25519))))
          (account_row db k) h in
      account_row-IsAnswer k row r q
  get-IsAnswer (LedgerKey.contract_code k) r h =
      let key = LedgerKey.contract_code k in
      let (row, e, q) = >>=-eq-ok (code_row db k) (contract_row db key) h in
      contract_row-IsAnswer key row r q
  get-IsAnswer (LedgerKey.contract_data k) r h =
      let key = LedgerKey.contract_data k in
      let (row, e, q) = >>=-eq-ok (data_row db k.contract k.key) (contract_row db key) h in
      contract_row-IsAnswer key row r q
  get-IsAnswer (LedgerKey.other k) r h = (none, cc)

  -- Over `DynamicSnapshot`, on a database that answers, loading the current state of a transaction
  -- that invokes a host function succeeds: the source never reports an error of the host, so that
  -- every key of the footprint is answered.
  pub build_current_state-Answers :
      (s : SnapshotSource) (env : TransactionV1Envelope) (x : RetroshadesExecution)
      {soroban : SorobanTransactionData} {op : Operation} {host_fn : InvokeHostFunctionOp}
      → Answers db s
      → Invokes env soroban op host_fn
      → (build_current_state s env x).0 ≡ ok tt
  build_current_state-Answers s env x {soroban} {op} {host_fn} answers inv =
      let y =
        with_invocation host_fn op.source_account env.tx.source_account
          (record x { resources = some soroban.resources }) in
      rw (build_current_state-load s env x inv)
        (elim (load_footprint-Stops s (full_footprint soroban.resources) y) [
          | inl (es, f, e) ↦ ap (λ z. z.0) e
          | inr (r, e) ↦
              let (o, q) = get-IsAnswer r.key (s r.key) (answers r.key) in
              let no_error : HostResult.ok o ≡ HostResult.err r.host_error = sym q ∙ r.refused in cc
        ])
