-- ===== src/Snapshot.antt =====
-- retroshade/src/snapshot.rs: the snapshot that recording mode reads from, an overlay of the
-- pre-execution state on the implementor's source.
pub mod Overlay
use retroshade.Base.{Bool, false, List, [], ◌∷◌, Option, none, some, ◌||◌, if◌then◌else◌, ◌==◌}
use retroshade.Xdr.Ledger.{LedgerEntry, LedgerEntryData, LedgerKey, LedgerKey-eq}
use retroshade.Execution.{EntryWithLiveUntil, HostResult, SnapshotSource}

pub record InternalSnapshot : Type 0 where
  pub inner_source : SnapshotSource
  pub target_pre_execution_state : List EntryWithLiveUntil
  pub force_remove : List LedgerEntry

unfoldable pub new : SnapshotSource → List EntryWithLiveUntil → List LedgerEntry → InternalSnapshot
new inner_source target_pre_execution_state force_remove = record {
  inner_source = inner_source;
  target_pre_execution_state = target_pre_execution_state;
  force_remove = force_remove;
}

-- The key of an entry, for the four kinds that both closures of `get` tell apart.
unfoldable pub entry_key : LedgerEntryData → Option LedgerKey
entry_key (LedgerEntryData.account a) =
    some (LedgerKey.account (record { account_id = a.account_id }))
entry_key (LedgerEntryData.contract_code c) =
    some (LedgerKey.contract_code (record { hash = c.hash }))
entry_key (LedgerEntryData.contract_data d) = some (
    LedgerKey.contract_data
      (record { contract = d.contract; key = d.key; durability = d.durability }))
entry_key (LedgerEntryData.trustline t) =
    some (LedgerKey.trustline (record { account_id = t.account_id; asset = t.asset }))
entry_key _ = none

-- The closures: `return false` for the other kinds, and else the comparison with the key.
unfoldable pub has_key : LedgerKey → LedgerEntry → Bool
unfolding entry_key
has_key key e = elim (entry_key e.payload) [ none ↦ false | some entry_key ↦ key == entry_key ]

unfoldable pub find_entry : LedgerKey → List EntryWithLiveUntil → Option EntryWithLiveUntil
find_entry key [] = none
find_entry key ((e, lifetime) ∷ es) =
    if has_key key e then some (e, lifetime) else find_entry key es

unfoldable pub is_forced : LedgerKey → List LedgerEntry → Bool
is_forced key [] = false
is_forced key (e ∷ es) = has_key key e || is_forced key es

unfoldable pub get : InternalSnapshot → SnapshotSource
unfolding find_entry is_forced
get s key = elim (find_entry key s.target_pre_execution_state) [
  | some entry ↦ HostResult.ok (some entry)
  | none ↦ if is_forced key s.force_remove then HostResult.ok none else s.inner_source key
]

-- The entry of an answer, without its lifetime.
abbrev pub entry_part : Option EntryWithLiveUntil → Option LedgerEntry
entry_part none = none
entry_part (some (e, _)) = some e

-- What a reader of the source sees of the ledger.
abbrev pub entry_answer : HostResult (Option EntryWithLiveUntil) → HostResult (Option LedgerEntry)
entry_answer (HostResult.ok r) = HostResult.ok (entry_part r)
entry_answer (HostResult.err e) = HostResult.err e
