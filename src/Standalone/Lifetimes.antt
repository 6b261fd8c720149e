-- ===== src/Standalone/Lifetimes.antt =====
-- `DynamicSnapshot` of retroshade/src/bin/standalone.rs gives the lifetimes that the host needs.
use retroshade.Base.{
  true, false, not, Option, none, some, ◌≡◌, refl, ap, ◌∙◌, subst, inl, inr, Option-cases,
}
use retroshade.Xdr.Value.{Opaque}
use retroshade.Xdr.Ledger.{LedgerEntry, LedgerKey, LedgerKeyAccount, LedgerKeyTrustLine}
use retroshade.Xdr.Transaction.{
  SorobanTransactionData, InvokeHostFunctionOp, Operation, TransactionV1Envelope, TransactionMeta,
}
use retroshade.Execution.{
  EntryWithLiveUntil, ok, ◌>>=◌, >>=-eq-ok, HostResult, unwrap, SnapshotSource, new,
}
use retroshade.State.Binaries.{Binaries}
use retroshade.State.Lives.{expires, lives}
use retroshade.Retroshade.{build_from_envelope_and_meta}
use retroshade.Retroshade.PreState.{Invokes}
use retroshade.Retroshade.Ready.{IsReady, invocation_context, build-IsReady}
use retroshade.Standalone.Database.{Query, Db}
use retroshade.Standalone.{
  row_entry, get_ttl, trust_row, trustline_row, account_entry, account_row, contract_row, code_row,
  data_row, get_trustline, get_account, get_code, get_data, get,
}

-- The table of trust lines holds no entries of contracts.
abbrev pub HasTrustlines : Db → Type 0
HasTrustlines db =
    (k : LedgerKeyTrustLine) (row : db.Row) (e : LedgerEntry)
    → trust_row db k ≡ ok (some row)
    → row_entry db row ≡ ok e
    → expires e.payload ≡ false

-- The source answers as `DynamicSnapshot` does, which never panics.
abbrev pub Answers : Db → SnapshotSource → Type 0
Answers db s = (k : LedgerKey) → get db k ≡ ok (s k)

module _ (db : Db) where
  contract_row-lives :
      (k : LedgerKey) (row : Option db.Row) (x : EntryWithLiveUntil)
      → contract_row db k row ≡ ok (HostResult.ok (some x))
      → lives x ≡ true
  unfolding lives
  contract_row-lives k none x h = cc
  contract_row-lives k (some row) x h =
      let (e, e1, r1) =
        >>=-eq-ok (row_entry db row)
          (λ entry. get_ttl db k >>= λ ttl. ok (HostResult.ok (some (entry, some ttl)))) h in
      let (t, e2, r2) =
        >>=-eq-ok (get_ttl db k) (λ ttl. ok (HostResult.ok (some (e, some ttl)))) r1 in
      let same : (e, some t) ≡ x = cc in subst (λ y. lives y ≡ true) same refl

  trustline_row-lives :
      (k : LedgerKeyTrustLine) (row : db.Row) (x : EntryWithLiveUntil)
      → HasTrustlines db
      → trust_row db k ≡ ok (some row)
      → trustline_row db (some row) ≡ ok (HostResult.ok (some x))
      → lives x ≡ true
  unfolding lives
  trustline_row-lives k row x tables e h =
      let (entry, e1, r1) =
        >>=-eq-ok (row_entry db row) (λ entry. ok (HostResult.ok (some (entry, none)))) h in
      let same : (entry, none) ≡ x = cc in
      subst (λ y. lives y ≡ true) same (ap not (tables k row entry e e1))

  account_row-lives :
      (k : LedgerKeyAccount) (row : Option db.Row) (x : EntryWithLiveUntil)
      → account_row db k row ≡ ok (HostResult.ok (some x))
      → lives x ≡ true
  unfolding lives expires
  account_row-lives k none x h = cc
  account_row-lives k (some row) x h =
      let (b, e, r) =
        >>=-eq-ok (unwrap (db.get_i64 0 row))
          (λ balance. ok (HostResult.ok (some (account_entry db k balance, none)))) h in
      let same : (account_entry db k b, none) ≡ x = cc in subst (λ y. lives y ≡ true) same refl

  get_trustline-lives :
      (k : LedgerKeyTrustLine) (x : EntryWithLiveUntil)
      → HasTrustlines db
      → get_trustline db k ≡ ok (HostResult.ok (some x))
      → lives x ≡ true
  unfolding get_trustline
  get_trustline-lives k x tables h =
      let (row, e, r) = >>=-eq-ok (trust_row db k) (trustline_row db) h in
      elim (Option-cases row) [
        | inl q ↦ let no_row : trustline_row db none ≡ ok (HostResult.ok (some x)) = rw q at r in cc
        | inr (found, q) ↦ trustline_row-lives k found x tables (e ∙ rw q refl) (rw q at r)
      ]

  get_account-lives :
      (k : LedgerKeyAccount) (x : EntryWithLiveUntil)
      → get_account db k ≡ ok (HostResult.ok (some x))
      → lives x ≡ true
  unfolding get_account
  get_account-lives k x h =
      let (row, e, r) =
        >>=-eq-ok (unwrap (db.query (Query.account (db.strkey_ed25519 k.account_id.ed25519))))
          (account_row db k) h in
      account_row-lives k row x r

  -- An entry of contract data or code comes with a lifetime.
  get-lives :
      (k : LedgerKey) (x : EntryWithLiveUntil)
      → HasTrustlines db
      → get db k ≡ ok (HostResult.ok (some x))
      → lives x ≡ true
  unfolding get get_code get_data
  get-lives (LedgerKey.trustline k) x tables h = get_trustline-lives k x tables h
  get-lives (LedgerKey.account k) x tables h = get_account-lives k x h
  get-lives (LedgerKey.contract_code k) x tables h =
      let (row, e, r) = >>=-eq-ok (code_row db k) (contract_row db (LedgerKey.contract_code k)) h in
      contract_row-lives (LedgerKey.contract_code k) row x r
  get-lives (LedgerKey.contract_data k) x tables h =
      let (row, e, r) =
        >>=-eq-ok (data_row db k.contract k.key) (contract_row db (LedgerKey.contract_data k)) h in
      contract_row-lives (LedgerKey.contract_data k) row x r
  get-lives (LedgerKey.other k) x tables h = cc

  -- A fresh object is built over `DynamicSnapshot`, on a database that answers and whose table of
  -- trust lines holds no entries of contracts, for a transaction that invokes a host function. Then
  -- the object is ready to invoke it, and each of its contract entries has a lifetime.
  pub get-IsReady :
      (s : SnapshotSource) (env : TransactionV1Envelope) (meta : TransactionMeta)
      (mercury : Binaries) (ledger_info : Opaque) {soroban : SorobanTransactionData}
      {op : Operation} {host_fn : InvokeHostFunctionOp}
      → Answers db s
      → HasTrustlines db
      → Invokes env soroban op host_fn
      → IsReady
          (invocation_context env soroban op host_fn ledger_info)
          (build_from_envelope_and_meta s env meta mercury (new ledger_info)).1
  get-IsReady s env meta mercury ledger_info answers tables inv =
      build-IsReady s env meta mercury ledger_info
        (λ k x q. get-lives k x tables (answers k ∙ ap ok q)) inv
