-- ===== src/Standalone/Durability.antt =====
-- `DynamicSnapshot` of retroshade/src/bin/standalone.rs asks for contract data without its
-- durability.
use retroshade.Base.{Option, none, some, ◌≡◌, ◌≢◌, sym, ap, ◌∙◌}
use retroshade.Xdr.Value.{ScAddress, ScVal}
use retroshade.Xdr.Ledger.{LedgerEntry, LedgerKey, ContractDataDurability}
use retroshade.Execution.{EntryWithLiveUntil, ok, ◌>>=◌, >>=-eq-ok, HostResult, SnapshotSource}
use retroshade.Snapshot.{entry_key, entry_part, entry_answer}
use retroshade.Ledger.{Ledger}
use retroshade.Ledger.Load.{Serves}
use retroshade.Standalone.Database.{Db}
use retroshade.Standalone.{row_entry, get_ttl, contract_row, data_row, get_data, get}

module _ (db : Db) where
  contract_row-entry :
      (k k' : LedgerKey) (row : Option db.Row) (a a' : HostResult (Option EntryWithLiveUntil))
      → contract_row db k row ≡ ok a
      → contract_row db k' row ≡ ok a'
      → entry_answer a ≡ entry_answer a'
  contract_row-entry k k' none a a' h h' = cc
  contract_row-entry k k' (some row) a a' h h' =
      let (e, e1, r1) =
        >>=-eq-ok (row_entry db row)
          (λ entry. get_ttl db k >>= λ ttl. ok (HostResult.ok (some (entry, some ttl)))) h in
      let (t, t1, r2) =
        >>=-eq-ok (get_ttl db k) (λ ttl. ok (HostResult.ok (some (e, some ttl)))) r1 in
      let (e', e1', r1') =
        >>=-eq-ok (row_entry db row)
          (λ entry. get_ttl db k' >>= λ ttl. ok (HostResult.ok (some (entry, some ttl)))) h' in
      let (t', t1', r2') =
        >>=-eq-ok (get_ttl db k') (λ ttl. ok (HostResult.ok (some (e', some ttl)))) r1' in
      let same : e ≡ e' = cc in
      let x : HostResult.ok (some (e, some t)) ≡ a = cc in
      let x' : HostResult.ok (some (e', some t')) ≡ a' = cc in
      ap entry_answer (sym x) ∙ ap (λ y. HostResult.ok (some y)) same ∙ ap entry_answer x'

  module _ (owner : ScAddress) (key : ScVal) where
    abbrev data_key : ContractDataDurability → LedgerKey
    data_key d = LedgerKey.contract_data (record { contract = owner; key = key; durability = d })

    -- Both durabilities have the same answers, but for the lifetimes.
    get-data_key :
        (d d' : ContractDataDurability) (a a' : HostResult (Option EntryWithLiveUntil))
        → get db (data_key d) ≡ ok a
        → get db (data_key d') ≡ ok a'
        → entry_answer a ≡ entry_answer a'
    unfolding get get_data
    get-data_key d d' a a' h h' =
        let (row, e, r) = >>=-eq-ok (data_row db owner key) (contract_row db (data_key d)) h in
        let (row', e', r') = >>=-eq-ok (data_row db owner key) (contract_row db (data_key d')) h' in
        let same : row' ≡ row = cc in
        contract_row-entry (data_key d) (data_key d') row a a' r (rw same at r')

    -- A source that answers as `DynamicSnapshot` does serves no ledger with an entry of contract
    -- data: it finds the entry under the other durability, too, where the ledger has another entry
    -- or none.
    pub get-ne-Serves :
        (d d' : ContractDataDurability) (s : SnapshotSource) (l : Ledger) (e : LedgerEntry)
        → d ≢ d'
        → ((k : LedgerKey) → get db k ≡ ok (s k))
        → l (data_key d) ≡ some e
        → ¬ Serves s l
    get-ne-Serves d d' s l e other answers found serves =
        let (r, q, p) = serves.answer (data_key d) in
        let (r', q', p') = serves.answer (data_key d') in
        let same = get-data_key d d' (s (data_key d)) (s (data_key d')) (answers _) (answers _) in
        let both : HostResult.ok (entry_part r) ≡ HostResult.ok (entry_part r') =
          rw (q, q') at same in
        let there : l (data_key d') ≡ some e = cc in
        let own : entry_key e.payload ≡ some (data_key d) = serves.keyed (data_key d) e found in
        let not_own : entry_key e.payload ≡ some (data_key d') =
          serves.keyed (data_key d') e there in
        other (cc)
