-- ===== src/Ledger.antt =====
-- The ledger as the network means it, and a transaction's changes as steps between two ledgers:
-- what the reset of retroshade/src/state.rs is measured by.
pub mod Slots
pub mod Revert
pub mod View
pub mod Undo
pub mod Load
pub mod Durability
pub mod Lookup
use retroshade.Base.{
  Bool, true, false, ◌&&◌, List, [], ◌∷◌, Option, none, some, if◌then◌else◌, ◌==◌, ◌≡◌, ◌⊎◌,
}
use retroshade.Xdr.Value.{Opaque, Bytes-eq, AccountId-eq, ScAddress-eq, ScVal-eq}
use retroshade.Xdr.Ledger.{LedgerEntry, LedgerKey, LedgerKey-eq, LedgerEntryChange}
use retroshade.Snapshot.{entry_key}

abbrev pub Ledger : Type 0
Ledger = LedgerKey → Option LedgerEntry

abbrev pub write : Ledger → LedgerKey → Option LedgerEntry → Ledger
write l k v j = if j == k then v else l j

-- Keys that the reset does not tell apart: it leaves the durability of contract data out.
unfoldable pub same_slot : LedgerKey → LedgerKey → Bool
same_slot (LedgerKey.contract_code a) (LedgerKey.contract_code b) = b.hash == a.hash
same_slot (LedgerKey.contract_data a) (LedgerKey.contract_data b) =
    a.contract == b.contract && a.key == b.key
same_slot (LedgerKey.trustline a) (LedgerKey.trustline b) =
    a.asset == b.asset && a.account_id == b.account_id
same_slot (LedgerKey.account a) (LedgerKey.account b) = a.account_id == b.account_id
same_slot _ _ = false

unfoldable pub change_key : LedgerEntryChange → Option LedgerKey
unfolding entry_key
change_key (LedgerEntryChange.state e) = entry_key e.payload
change_key (LedgerEntryChange.created e) = entry_key e.payload
change_key (LedgerEntryChange.updated e) = entry_key e.payload
change_key (LedgerEntryChange.removed k) = some k
change_key (LedgerEntryChange.restored e) = none

abbrev pub KeyApart : LedgerKey → Option LedgerKey → Type 0
KeyApart k none = Unit
KeyApart k (some p) = same_slot k p ≡ false

-- No change is in the slot of the key.
abbrev pub Apart : LedgerKey → List LedgerEntryChange → Type 0
Apart k [] = Unit
Apart k (c ∷ cs) = KeyApart k (change_key c) × Apart k cs

-- Each change in the slot of the key is at the key itself: contract data is not also changed under
-- the other durability.
abbrev pub Unaliased : LedgerKey → List LedgerEntryChange → Type 0
Unaliased k [] = Unit
Unaliased k (c ∷ cs) = ((change_key c ≡ some k) ⊎ KeyApart k (change_key c)) × Unaliased k cs

abbrev pub is_data_key : LedgerKey → Bool
is_data_key (LedgerKey.contract_data _) = true
is_data_key _ = false

-- The changes of one operation lead from the ledger to `after`, each entry is changed at most
-- once, and only contract data is created or removed.
pub data Applies (after : Ledger) : List LedgerEntryChange → Ledger → Type 0 where
  done : {l : Ledger} → l ≡ after → Applies after [] l
  updates :
      {l : Ledger} {cs : List LedgerEntryChange} (k : LedgerKey) (pre post : LedgerEntry)
      → entry_key pre.payload ≡ some k
      → entry_key post.payload ≡ some k
      → l k ≡ some pre
      → Apart k cs
      → Applies after cs (write l k (some post))
      → Applies after (LedgerEntryChange.state pre ∷ LedgerEntryChange.updated post ∷ cs) l
  removes :
      {l : Ledger} {cs : List LedgerEntryChange} (k : LedgerKey) (pre : LedgerEntry)
      → entry_key pre.payload ≡ some k
      → is_data_key k ≡ true
      → l k ≡ some pre
      → Apart k cs
      → Applies after cs (write l k none)
      → Applies after (LedgerEntryChange.state pre ∷ LedgerEntryChange.removed k ∷ cs) l
  creates :
      {l : Ledger} {cs : List LedgerEntryChange} (k : LedgerKey) (e : LedgerEntry)
      → entry_key e.payload ≡ some k
      → is_data_key k ≡ true
      → l k ≡ none
      → Apart k cs
      → Applies after cs (write l k (some e))
      → Applies after (LedgerEntryChange.created e ∷ cs) l
  restores :
      {l : Ledger} {cs : List LedgerEntryChange} (e : LedgerEntry)
      → Applies after cs l
      → Applies after (LedgerEntryChange.restored e ∷ cs) l
  -- Entries of other kinds, such as the lifetimes, are not part of this ledger.
  updates_other :
      {l : Ledger} {cs : List LedgerEntryChange} (pre post : LedgerEntry)
      → entry_key pre.payload ≡ none
      → entry_key post.payload ≡ none
      → Applies after cs l
      → Applies after (LedgerEntryChange.state pre ∷ LedgerEntryChange.updated post ∷ cs) l
  removes_other :
      {l : Ledger} {cs : List LedgerEntryChange} (key : Opaque) (pre : LedgerEntry)
      → entry_key pre.payload ≡ none
      → Applies after cs l
      → Applies after
          (LedgerEntryChange.state pre ∷ LedgerEntryChange.removed (LedgerKey.other key) ∷ cs)
          l
  creates_other :
      {l : Ledger} {cs : List LedgerEntryChange} (e : LedgerEntry)
      → entry_key e.payload ≡ none
      → Applies after cs l
      → Applies after (LedgerEntryChange.created e ∷ cs) l
