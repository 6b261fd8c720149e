-- ===== src/Retroshade/Swapped.antt =====
-- What the overlay of retroshade/src/snapshot.rs shows after `replace_binaries` of
-- retroshade/src/state.rs.
use retroshade.Base.{
  true, List, [], ◌∷◌, map, Option, none, some, ◌≡◌, refl, inl, inr, Bool-cases, Option-cases,
}
use retroshade.Xdr.Value.{Bytes, Hash}
use retroshade.Xdr.Ledger.{LedgerEntry, LedgerEntryData, LedgerKey}
use retroshade.Execution.{EntryWithLiveUntil, HostResult, SnapshotSource, RetroshadesExecution}
use retroshade.Snapshot
use retroshade.Snapshot.{entry_key, has_key, find_entry}
use retroshade.State.Binaries.{Binaries, replace_binaries}
use retroshade.State.Binaries.Swap.{last_code, all_contracts}
use retroshade.State.Binaries.Replace.{swap, swap_data, all_fit, replace_binaries-swap}
use retroshade.Ledger.View.{view}

abbrev pub Codes : Type 0
Codes = Hash → Option Bytes

entry_key-swap_data :
    (codes : Codes) (d : LedgerEntryData) → entry_key (swap_data codes d) ≡ entry_key d
unfolding entry_key swap_data
entry_key-swap_data codes (LedgerEntryData.contract_code c) = elim (Option-cases (codes c.hash)) [
  | inl q ↦ rw (q, swap_data) refl
  | inr (code, q) ↦ rw (q, swap_data) refl
]
entry_key-swap_data codes _ = refl

has_key-swap :
    (codes : Codes) (k : LedgerKey) (e : EntryWithLiveUntil)
    → has_key k (swap codes e).0 ≡ has_key k e.0
unfolding has_key swap
has_key-swap codes k (e, ttl) = rw (entry_key-swap_data codes e.payload, has_key) refl

abbrev swap_found : Codes → Option EntryWithLiveUntil → Option EntryWithLiveUntil
swap_found codes none = none
swap_found codes (some e) = some (swap codes e)

find_entry-swap :
    (codes : Codes) (k : LedgerKey) (st : List EntryWithLiveUntil)
    → find_entry k (map (swap codes) st) ≡ swap_found codes (find_entry k st)
unfolding find_entry swap
find_entry-swap codes k [] = refl
find_entry-swap codes k ((e, ttl) ∷ es) = elim (Bool-cases (has_key k e)) [
  | inl q ↦ rw (has_key-swap codes k (e, ttl), q, find_entry) refl
  | inr q ↦ rw (has_key-swap codes k (e, ttl), q, find_entry) (find_entry-swap codes k es)
]

-- An entry of the state is shown with its new code, and all else as before.
abbrev pub swapped_answer :
    Codes
    → Option EntryWithLiveUntil
    → HostResult (Option LedgerEntry)
    → HostResult (Option LedgerEntry)
swapped_answer codes none shown = shown
swapped_answer codes (some e) shown = HostResult.ok (some (swap codes e).0)

-- On a state whose contract data stands under contracts, and with codes that fit a field: the
-- overlay of the object after the replacement shows what it showed before under each key, but for
-- contract code of the state, of which it shows the code of the last instance that has its hash
-- and is registered, if there is one.
pub replace_binaries-view :
    (s : SnapshotSource) (mercury : Binaries) (x : RetroshadesExecution) (k : LedgerKey)
    → all_contracts x.target_pre_execution_state ≡ true
    → all_fit mercury ≡ true
    → view s (replace_binaries mercury x).1 k
      ≡ swapped_answer
          (last_code mercury x.target_pre_execution_state)
          (find_entry k x.target_pre_execution_state)
          (view s x k)
unfolding Snapshot.get Snapshot.new
replace_binaries-view s mercury x k contracts fit =
    let codes = last_code mercury x.target_pre_execution_state in
    let found = find_entry-swap codes k x.target_pre_execution_state in
    rw (replace_binaries-swap mercury x contracts fit)
      (elim (Option-cases (find_entry k x.target_pre_execution_state)) [
        | inl q ↦ rw (found, q, Snapshot.get) refl
        | inr (e, q) ↦ rw (found, q, Snapshot.get) refl
      ])
