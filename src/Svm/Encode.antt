-- ===== src/Svm/Encode.antt =====
-- retroshade/src/internal.rs: the arguments of `invoke_host_function` in XDR.
use retroshade.Base.{ℕ, Bool, List, [], Option, none, some}
use retroshade.Xdr.Value.{Bytes, Opaque, Hash, AccountId}
use retroshade.Xdr.Ledger.{LedgerEntryData, LedgerKey, TtlEntry}
use retroshade.Xdr.Transaction.{SorobanResources}
use retroshade.Execution.{EntryWithLiveUntil, Outcome, ok, ◌>>=◌, unwrap}
use retroshade.Svm.Calls.{Invocation, Host, map_all}

-- The key of an entry that has a lifetime.
unfoldable pub ttl_key : LedgerEntryData → Option LedgerKey
ttl_key (LedgerEntryData.contract_data cd) = some (
    LedgerKey.contract_data
      (record { contract = cd.contract; key = cd.key; durability = cd.durability }))
ttl_key (LedgerEntryData.contract_code code) =
    some (LedgerKey.contract_code (record { hash = code.hash }))
ttl_key _ = none

module _ (h : Host) where
  -- The digest has the 32 bytes that the conversion to a hash asks for.
  unfoldable pub compute_key_hash : LedgerKey → Outcome Hash
  compute_key_hash key = do key_xdr ← unwrap (h.key_to_xdr key); ok (h.sha256 key_xdr)

  unfoldable pub ttl_entry : LedgerKey → ℕ → Outcome TtlEntry
  unfolding compute_key_hash
  ttl_entry key ttl = do
    key_hash ← compute_key_hash key
    ok (record { key_hash = key_hash; live_until_ledger_seq = ttl })

  -- The bytes of an entry's lifetime, none for an entry that has none.
  unfoldable pub encode_ttl : EntryWithLiveUntil → Outcome Bytes
  unfolding ttl_entry ttl_key
  encode_ttl (le, ttl) = elim (ttl_key le.payload) [
    | none ↦ ok []
    | some key ↦ do
      live_until ← unwrap ttl
      entry ← ttl_entry key live_until
      unwrap (h.ttl_to_xdr entry)
  ]

  unfoldable pub encode_invocation :
      Bool
      → Opaque
      → SorobanResources
      → AccountId
      → List Opaque
      → Opaque
      → List EntryWithLiveUntil
      → Bytes
      → Outcome Invocation
  unfolding encode_ttl map_all
  encode_invocation enable_diagnostics host_fn resources source_account auth_entries ledger_info
        ledger_entries_with_ttl prng_seed =
      do
        encoded_host_fn ← unwrap (h.host_function_to_xdr host_fn)
        encoded_resources ← unwrap (h.resources_to_xdr resources)
        encoded_source_account ← unwrap (h.account_to_xdr source_account)
        encoded_auth_entries ← map_all (λ e. unwrap (h.auth_to_xdr e)) auth_entries
        encoded_ledger_entries ← map_all (λ e. unwrap (h.entry_to_xdr e.0)) ledger_entries_with_ttl
        encoded_ttl_entries ← map_all encode_ttl ledger_entries_with_ttl
        ok (record {
          enable_diagnostics = enable_diagnostics;
          encoded_host_fn = encoded_host_fn;
          encoded_resources = encoded_resources;
          encoded_source_account = encoded_source_account;
          encoded_auth_entries = encoded_auth_entries;
          ledger_info = ledger_info;
          encoded_ledger_entries = encoded_ledger_entries;
          encoded_ttl_entries = encoded_ttl_entries;
          prng_seed = prng_seed;
        })
