-- ===== src/Standalone/Answers.antt =====
-- `DynamicSnapshot` of retroshade/src/bin/standalone.rs against a ledger that its database mirrors.
use retroshade.Base.{ℕ, Option, none, some, ◌≡◌, refl, ap}
use retroshade.Xdr.Value.{Bytes, Opaque, Hash, ScAddress, ScVal}
use retroshade.Xdr.Ledger.{
  LedgerEntry, LedgerEntryData, LedgerKey, LedgerKeyTrustLine, LedgerKeyContractData,
  LedgerKeyContractCode, TtlEntry, ContractDataDurability,
}
use retroshade.Conversion.Codec.{Text}
use retroshade.Execution.{EntryWithLiveUntil, ok, HostResult}
use retroshade.Ledger.{Ledger}
use retroshade.Standalone.Database.{Query, Db}
use retroshade.Standalone.{
  row_entry, get_ttl, trust_row, trustline_row, contract_row, code_row, data_row, get_trustline,
  get_code, get_data, get,
}

-- Contract data of one owner and key has one durability in the ledger.
abbrev pub Durabilities : Type 0
Durabilities = ScAddress → ScVal → ContractDataDurability

abbrev pub IsContract : LedgerKey → Type 0
IsContract (LedgerKey.contract_code _) = Unit
IsContract (LedgerKey.contract_data _) = Unit
IsContract _ = ⊥

abbrev pub without_life : Option LedgerEntry → Option EntryWithLiveUntil
without_life none = none
without_life (some e) = some (e, none)

abbrev pub with_life : ℕ → Option LedgerEntry → Option EntryWithLiveUntil
with_life n none = none
with_life n (some e) = some (e, some n)

-- The keys that the source answers from whole entries.
abbrev pub IsMirrored : Durabilities → LedgerKey → Type 0
IsMirrored dur (LedgerKey.trustline _) = Unit
IsMirrored dur (LedgerKey.contract_code _) = Unit
IsMirrored dur (LedgerKey.contract_data k) = k.durability ≡ dur k.contract k.key
IsMirrored dur _ = ⊥

-- The ledger's answer: contract entries have a lifetime, trust lines have none.
abbrev pub ledger_answer : Ledger → (LedgerKey → ℕ) → LedgerKey → Option EntryWithLiveUntil
ledger_answer l life (LedgerKey.trustline k) = without_life (l (LedgerKey.trustline k))
ledger_answer l life k = with_life (life k) (l k)

-- The tables, by the columns that select a row: the text in the column of its ledger entry.
pub record Tables : Type 0 where
  -- By `accountid` and `asset`.
  pub trustlines : Text → Text → Option Text
  -- By `hash`.
  pub contractcode : Text → Option Text
  -- By `contractid` and `key`.
  pub contractdata : Text → Text → Option Text
  -- By `keyhash`.
  pub ttl : Text → Option Text

module _ (db : Db) where
  -- The first row of a query has the text, or there is no row.
  abbrev pub IsRow : Option Text → Option (Option db.Row) → Type 0
  IsRow none result = result ≡ some none
  IsRow (some t) result = (row : db.Row) × (result ≡ some (some row)) × (db.get_text row ≡ some t)

  -- The queries select from the tables.
  pub record Selects (t : Tables) : Type 0 where
    pub trustlines :
        (account_id asset : Text)
        → IsRow (t.trustlines account_id asset) (db.query (Query.trustline account_id asset))
    pub contractcode : (hash : Text) → IsRow (t.contractcode hash) (db.query (Query.code hash))
    pub contractdata :
        (contract_id key : Text)
        → IsRow (t.contractdata contract_id key) (db.query (Query.contract_data contract_id key))
    pub ttl : (key_hash : Text) → IsRow (t.ttl key_hash) (db.query (Query.ttl key_hash))

  -- The encoders of keys succeed.
  pub record Encodings : Type 0 where
    pub asset : Opaque → Text
    pub hash : Hash → Text
    pub address : ScAddress → Text
    pub value : ScVal → Text
    pub key : LedgerKey → Bytes
    pub asset_to_base64 : (a : Opaque) → db.asset_to_base64 a ≡ some (asset a)
    pub hash_to_base64 : (h : Hash) → db.hash_to_base64 h ≡ some (hash h)
    pub address_to_base64 : (a : ScAddress) → db.address_to_base64 a ≡ some (address a)
    pub value_to_base64 : (v : ScVal) → db.value_to_base64 v ≡ some (value v)
    pub key_to_xdr : (k : LedgerKey) → db.key_to_xdr k ≡ some (key k)

  -- A column that holds an entry.
  abbrev pub TextOf : Option LedgerEntry → Option Text → Type 0
  TextOf none none = Unit
  TextOf (some e) (some t) = db.entry_from_base64 t ≡ some e
  TextOf _ _ = ⊥

  -- A lifetime as an entry of the ledger.
  pub record Lifetime (n : ℕ) : Type 0 where
    pub entry : LedgerEntry
    pub ttl : TtlEntry
    pub is_ttl : entry.payload ≡ LedgerEntryData.ttl ttl
    pub lives_until : ttl.live_until_ledger_seq ≡ n

  -- The tables hold the trust lines, the code and the data of the ledger, and a lifetime for each
  -- entry of code or data, under the hash of its key.
  pub record Mirrors (l : Ledger) (life : LedgerKey → ℕ) (dur : Durabilities) : Type 0 where
    pub tables : Tables
    pub selects : Selects tables
    pub encodings : Encodings
    pub trustlines :
        (k : LedgerKeyTrustLine)
        → TextOf
            (l (LedgerKey.trustline k))
            (tables.trustlines (db.strkey_ed25519 k.account_id.ed25519) (encodings.asset k.asset))
    pub codes :
        (k : LedgerKeyContractCode)
        → TextOf (l (LedgerKey.contract_code k)) (tables.contractcode (encodings.hash k.hash))
    pub datas :
        (k : LedgerKeyContractData)
        → k.durability ≡ dur k.contract k.key
        → TextOf
            (l (LedgerKey.contract_data k))
            (tables.contractdata (encodings.address k.contract) (encodings.value k.key))
    pub ttls :
        (k : LedgerKey) (e : LedgerEntry)
        → IsContract k
        → l k ≡ some e
        → (t : Lifetime (life k)) × TextOf
            (some t.entry)
            (tables.ttl (encodings.hash (db.sha256 (encodings.key k))))

  -- The row holds the entry.
  abbrev RowOf : Option LedgerEntry → Option db.Row → Type 0
  RowOf none none = Unit
  RowOf (some e) (some row) = row_entry db row ≡ ok e
  RowOf _ _ = ⊥

  IsRow-RowOf :
      (o : Option LedgerEntry) (t : Option Text) (result : Option (Option db.Row))
      → TextOf o t
      → IsRow t result
      → (row : Option db.Row) × (result ≡ some row) × RowOf o row
  unfolding row_entry
  IsRow-RowOf none none result h e = (none, e, tt)
  IsRow-RowOf (some e) (some t) result h (row, q, text) = (some row, q, rw (text, h) refl)
  IsRow-RowOf none (some t) result h r = absurd h
  IsRow-RowOf (some e) none result h r = absurd h

  get_ttl-ttl :
      (k : LedgerKey) (n : ℕ) (c : Encodings) (t : Lifetime n) (row : Option db.Row)
      → db.query (Query.ttl (c.hash (db.sha256 (c.key k)))) ≡ some row
      → RowOf (some t.entry) row
      → get_ttl db k ≡ ok n
  unfolding get_ttl
  get_ttl-ttl k n c t (some row) q r =
      rw (c.key_to_xdr k, c.hash_to_base64 (db.sha256 (c.key k)), q, r, t.is_ttl)
        (ap ok t.lives_until)
  get_ttl-ttl k n c t none q r = absurd r

  trustline_row-RowOf :
      (o : Option LedgerEntry) (row : Option db.Row)
      → RowOf o row
      → trustline_row db row ≡ ok (HostResult.ok (without_life o))
  trustline_row-RowOf none none h = refl
  trustline_row-RowOf (some e) (some row) h = rw h refl
  trustline_row-RowOf none (some row) h = absurd h
  trustline_row-RowOf (some e) none h = absurd h

  contract_row-RowOf :
      (k : LedgerKey) (n : ℕ) (o : Option LedgerEntry) (row : Option db.Row)
      → RowOf o row
      → ((e : LedgerEntry) → o ≡ some e → get_ttl db k ≡ ok n)
      → contract_row db k row ≡ ok (HostResult.ok (with_life n o))
  contract_row-RowOf k n none none h t = refl
  contract_row-RowOf k n (some e) (some row) h t = rw (h, t e refl) refl
  contract_row-RowOf k n none (some row) h t = absurd h
  contract_row-RowOf k n (some e) none h t = absurd h

  module _ (l : Ledger) (life : LedgerKey → ℕ) (dur : Durabilities) where
    get_ttl-Mirrors :
        (m : Mirrors l life dur) (k : LedgerKey) (e : LedgerEntry)
        → IsContract k
        → l k ≡ some e
        → get_ttl db k ≡ ok (life k)
    get_ttl-Mirrors m k e is h =
        let c = m.encodings in
        let (t, text) = m.ttls k e is h in
        let hash = c.hash (db.sha256 (c.key k)) in
        let (row, q, r) =
          IsRow-RowOf (some t.entry) (m.tables.ttl hash) _ text (m.selects.ttl hash) in
        get_ttl-ttl k (life k) c t row q r

    -- On a database that mirrors a ledger in which contract data has one durability for each owner
    -- and key, the source answers a key of a trust line, of contract code, or of contract data
    -- under its durability by the ledger's entry, if there is one, and by the lifetime of a contract
    -- entry. It does not panic.
    pub get-Mirrors :
        (k : LedgerKey)
        → Mirrors l life dur
        → IsMirrored dur k
        → get db k ≡ ok (HostResult.ok (ledger_answer l life k))
    unfolding get get_trustline get_code get_data trust_row code_row data_row
    get-Mirrors (LedgerKey.trustline k) m h =
        let account_id = db.strkey_ed25519 k.account_id.ed25519 in
        let asset = m.encodings.asset k.asset in
        let (row, q, r) =
          IsRow-RowOf (l (LedgerKey.trustline k)) (m.tables.trustlines account_id asset) _
            (m.trustlines k) (m.selects.trustlines account_id asset) in
        rw (m.encodings.asset_to_base64 k.asset, q)
          (trustline_row-RowOf (l (LedgerKey.trustline k)) row r)
    get-Mirrors (LedgerKey.contract_code k) m h =
        let key = LedgerKey.contract_code k in
        let hash = m.encodings.hash k.hash in
        let (row, q, r) =
          IsRow-RowOf (l key) (m.tables.contractcode hash) _ (m.codes k)
            (m.selects.contractcode hash) in
        rw (m.encodings.hash_to_base64 k.hash, q)
          (contract_row-RowOf key (life key) (l key) row r (λ e. get_ttl-Mirrors m key e tt))
    get-Mirrors (LedgerKey.contract_data k) m h =
        let key = LedgerKey.contract_data k in
        let contract_id = m.encodings.address k.contract in
        let value = m.encodings.value k.key in
        let (row, q, r) =
          IsRow-RowOf (l key) (m.tables.contractdata contract_id value) _ (m.datas k h)
            (m.selects.contractdata contract_id value) in
        rw (m.encodings.address_to_base64 k.contract, m.encodings.value_to_base64 k.key, q)
          (contract_row-RowOf key (life key) (l key) row r (λ e. get_ttl-Mirrors m key e tt))
    get-Mirrors (LedgerKey.account k) m h = absurd h
    get-Mirrors (LedgerKey.other k) m h = absurd h
