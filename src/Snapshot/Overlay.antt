-- ===== src/Snapshot/Overlay.antt =====
-- What `get` of retroshade/src/snapshot.rs answers, with the lifetimes.
use retroshade.Base.{
  true, false, List, [], ◌∷◌, ◌++◌, Option, none, some, ◌≡◌, ◌⊎◌, refl, ap, sym, inl, inr, subst,
  Bool-cases, Option-cases, arith,
}
use retroshade.Xdr.Ledger.{
  LedgerEntry, LedgerEntryData, LedgerKey, LedgerKeyAccount, LedgerKeyTrustLine,
  LedgerKeyContractData, LedgerKeyContractCode, LedgerKey-eq,
}
use retroshade.Execution.{EntryWithLiveUntil, HostResult, SnapshotSource}
use retroshade.Snapshot.{entry_key, has_key, find_entry, is_forced, get, new}

-- The key of an entry: an account, a trust line, contract data or contract code. No other entry
-- has a key here.
abbrev pub HasKey : LedgerKey → LedgerEntryData → Type 0
HasKey (LedgerKey.account k) (LedgerEntryData.account e) = k.account_id ≡ e.account_id
HasKey (LedgerKey.trustline k) (LedgerEntryData.trustline e) =
    (k.account_id ≡ e.account_id) × (k.asset ≡ e.asset)
HasKey (LedgerKey.contract_data k) (LedgerEntryData.contract_data e) =
    (k.contract ≡ e.contract) × (k.key ≡ e.key) × (k.durability ≡ e.durability)
HasKey (LedgerKey.contract_code k) (LedgerEntryData.contract_code e) = k.hash ≡ e.hash
HasKey _ _ = ⊥

entry_key-HasKey : (k : LedgerKey) (e : LedgerEntryData) → entry_key e ≡ some k → HasKey k e
unfolding entry_key
entry_key-HasKey (LedgerKey.account k) (LedgerEntryData.account e) h =
    let key : LedgerKeyAccount = record { account_id = e.account_id } in
    let same : key ≡ k = cc in ap (λ z. z.account_id) (sym same)
entry_key-HasKey (LedgerKey.trustline k) (LedgerEntryData.trustline e) h =
    let key : LedgerKeyTrustLine = record { account_id = e.account_id; asset = e.asset } in
    let same : key ≡ k = cc in (ap (λ z. z.account_id) (sym same), ap (λ z. z.asset) (sym same))
entry_key-HasKey (LedgerKey.contract_data k) (LedgerEntryData.contract_data e) h =
    let key : LedgerKeyContractData = record {
      contract = e.contract;
      key = e.key;
      durability = e.durability;
    } in
    let same : key ≡ k = cc in
    (ap (λ z. z.contract) (sym same), ap (λ z. z.key) (sym same), ap (λ z. z.durability) (sym same))
entry_key-HasKey (LedgerKey.contract_code k) (LedgerEntryData.contract_code e) h =
    let key : LedgerKeyContractCode = record { hash = e.hash } in
    let same : key ≡ k = cc in ap (λ z. z.hash) (sym same)
entry_key-HasKey (LedgerKey.other k) (LedgerEntryData.account e) h = cc
entry_key-HasKey (LedgerKey.other k) (LedgerEntryData.trustline e) h = cc
entry_key-HasKey (LedgerKey.other k) (LedgerEntryData.contract_data e) h = cc
entry_key-HasKey (LedgerKey.other k) (LedgerEntryData.contract_code e) h = cc
entry_key-HasKey (LedgerKey.other k) (LedgerEntryData.ttl e) h = cc
entry_key-HasKey (LedgerKey.other k) (LedgerEntryData.other e) h = cc
entry_key-HasKey _ _ h = cc

HasKey-entry_key : (k : LedgerKey) (e : LedgerEntryData) → HasKey k e → entry_key e ≡ some k
unfolding entry_key
HasKey-entry_key (LedgerKey.account k) (LedgerEntryData.account e) h =
    λ i. some (LedgerKey.account (record { account_id = sym h i }))
HasKey-entry_key (LedgerKey.trustline k) (LedgerEntryData.trustline e) (p, q) =
    λ i. some (LedgerKey.trustline (record { account_id = sym p i; asset = sym q i }))
HasKey-entry_key (LedgerKey.contract_data k) (LedgerEntryData.contract_data e) (p, q, r) = λ i.
    some
      (LedgerKey.contract_data (record { contract = sym p i; key = sym q i; durability = sym r i }))
HasKey-entry_key (LedgerKey.contract_code k) (LedgerEntryData.contract_code e) h =
    λ i. some (LedgerKey.contract_code (record { hash = sym h i }))
HasKey-entry_key _ _ h = absurd h

-- No entry has the key.
abbrev pub NoEntry : LedgerKey → List EntryWithLiveUntil → Type 0
NoEntry k [] = Unit
NoEntry k ((e, _) ∷ es) = (¬ HasKey k e.payload) × NoEntry k es

-- Some entry has the key.
abbrev pub HasEntry : LedgerKey → List LedgerEntry → Type 0
HasEntry k [] = ⊥
HasEntry k (e ∷ es) = HasKey k e.payload ⊎ HasEntry k es

-- The first entry with the key, with its own lifetime.
pub record FirstEntry (k : LedgerKey) (st : List EntryWithLiveUntil) (e : EntryWithLiveUntil)
    : Type 0 where
  pub before : List EntryWithLiveUntil
  pub behind : List EntryWithLiveUntil
  pub split : st ≡ before ++ e ∷ behind
  pub first : NoEntry k before
  pub keyed : HasKey k e.0.payload

-- An overlay on one answer of a source: the first entry of the state, or nothing for what is
-- removed, or the answer of the source.
abbrev pub Overlays :
    LedgerKey
    → List EntryWithLiveUntil
    → List LedgerEntry
    → HostResult (Option EntryWithLiveUntil)
    → HostResult (Option EntryWithLiveUntil)
    → Type 0
Overlays k st forced inner answer =
    ((e : EntryWithLiveUntil) × FirstEntry k st e × (answer ≡ HostResult.ok (some e)))
    ⊎ (NoEntry k st × HasEntry k forced × (answer ≡ HostResult.ok none))
    ⊎ (NoEntry k st × (¬ HasEntry k forced) × (answer ≡ inner))

has_key-HasKey : (k : LedgerKey) (e : LedgerEntry) → has_key k e ≡ true → HasKey k e.payload
unfolding has_key
has_key-HasKey k e h = entry_key-HasKey k e.payload (elim (Option-cases (entry_key e.payload)) [
  | inl q ↦ ground (arith, q)
  | inr (p, q) ↦ ground (arith, q, LedgerKey-eq.eqb_iff k p)
])

HasKey-has_key : (k : LedgerKey) (e : LedgerEntry) → HasKey k e.payload → has_key k e ≡ true
unfolding has_key
HasKey-has_key k e h =
    rw (HasKey-entry_key k e.payload h, has_key) ((LedgerKey-eq.eqb_iff k k).1 refl)

no_key : (k : LedgerKey) (e : LedgerEntry) → has_key k e ≡ false → ¬ HasKey k e.payload
no_key k e h q = let bad : true ≡ false = rw (HasKey-has_key k e q) at h in cc

find_entry-none :
    (k : LedgerKey) (st : List EntryWithLiveUntil) → find_entry k st ≡ none → NoEntry k st
unfolding find_entry
find_entry-none k [] h = tt
find_entry-none k ((e, ttl) ∷ es) h = elim (Bool-cases (has_key k e)) [
  | inl q ↦ let bad : some (e, ttl) ≡ none = rw q at h in cc
  | inr q ↦ (no_key k e q, find_entry-none k es (rw q at h))
]

find_entry-some :
    (k : LedgerKey) (st : List EntryWithLiveUntil) (x : EntryWithLiveUntil)
    → find_entry k st ≡ some x
    → FirstEntry k st x
unfolding find_entry
find_entry-some k [] x h = cc
find_entry-some k ((e, ttl) ∷ es) x h = elim (Bool-cases (has_key k e)) [
  | inl q ↦
      let run : some (e, ttl) ≡ some x = rw q at h in
      let same : (e, ttl) ≡ x = cc in
      subst (FirstEntry k ((e, ttl) ∷ es)) same (record {
        before = [];
        behind = es;
        split = refl;
        first = tt;
        keyed = has_key-HasKey k e q;
      })
  | inr q ↦
      let r = find_entry-some k es x (rw q at h) in
      record {
        before = (e, ttl) ∷ r.before;
        behind = r.behind;
        split = ap (λ l. (e, ttl) ∷ l) r.split;
        first = (no_key k e q, r.first);
        keyed = r.keyed;
      }
]

is_forced-HasEntry : (k : LedgerKey) (es : List LedgerEntry) → is_forced k es ≡ true → HasEntry k es
unfolding is_forced
is_forced-HasEntry k [] h = cc
is_forced-HasEntry k (e ∷ es) h = elim (Bool-cases (has_key k e)) [
  | inl q ↦ inl (has_key-HasKey k e q)
  | inr q ↦ inr (is_forced-HasEntry k es (ground arith))
]

not_forced : (k : LedgerKey) (es : List LedgerEntry) → is_forced k es ≡ false → ¬ HasEntry k es
unfolding is_forced
not_forced k [] h q = q
not_forced k (e ∷ es) h (inl q) = no_key k e (ground arith) q
not_forced k (e ∷ es) h (inr q) = not_forced k es (ground arith) q

pub get-Overlays :
    (s : SnapshotSource) (st : List EntryWithLiveUntil) (forced : List LedgerEntry) (k : LedgerKey)
    → Overlays k st forced (s k) (get (new s st forced) k)
unfolding get new
get-Overlays s st forced k = elim (Option-cases (find_entry k st)) [
  | inr (e, q) ↦ inl (e, find_entry-some k st e q, rw (q, get) refl)
  | inl q ↦ elim (Bool-cases (is_forced k forced)) [
    | inl f ↦ inr (inl (find_entry-none k st q, is_forced-HasEntry k forced f, rw (q, f, get) refl))
    | inr f ↦ inr (inr (find_entry-none k st q, not_forced k forced f, rw (q, f, get) refl))
  ]
]
