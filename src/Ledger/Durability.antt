-- ===== src/Ledger/Durability.antt =====
-- `update_entries` and `remove_entry` of retroshade/src/state.rs compare contract data by contract
-- and key, and the snapshot of retroshade/src/snapshot.rs by the durability too.
use retroshade.Base.{
  Bool, true, false, List, [], ◌∷◌, none, some, ◌≡◌, ◌≢◌, refl, if◌then◌else◌, arith, Bool-cases,
  inl, inr,
}
use retroshade.Xdr.Ledger.{LedgerEntry, LedgerKey}
use retroshade.Execution.{EntryWithLiveUntil, SnapshotSource}
use retroshade.Snapshot.{entry_key, has_key, find_entry, is_forced, entry_answer}
use retroshade.State.Reset.{Tracked, is_target, update_loop, update_entries}
use retroshade.Ledger.{same_slot}
use retroshade.Ledger.Slots.{has_key_iff, is_target_lem}
use retroshade.Ledger.View.{view, view_inner}

module _ (k p : LedgerKey) (pre : LedgerEntry) (keyed : entry_key pre.payload ≡ some p)
    (slot : same_slot k p ≡ true) (other : k ≢ p) where
  hidden : has_key k pre ≡ false
  hidden = elim (Bool-cases (has_key k pre)) [
    | inl h ↦ absurd (other (key_injective ((has_key_iff k pre).0 h)))
    | inr h ↦ h
  ]
    where
      key_injective : entry_key pre.payload ≡ some k → k ≡ p
      key_injective e = cc

  find_entry-update_slot :
      (st : List EntryWithLiveUntil) (changed : Bool)
      → find_entry k (update_loop pre st changed).0 ≡ none
  unfolding find_entry update_loop
  find_entry-update_slot [] changed = refl
  find_entry-update_slot ((e, ttl) ∷ es) changed = ground (
    arith,
    hidden,
    λ (h : has_key k e ≡ true). is_target_lem e.payload pre.payload ((has_key_iff k e).0 h) keyed,
    find_entry-update_slot es (if is_target e.payload pre.payload then true else changed),
  )

  -- Resetting an update of contract data makes the object lose what it has loaded under the same
  -- contract and key with the other durability. If the removed entries do not have that key, the
  -- overlay then shows under it what the source has now, whatever the state before the transaction
  -- was.
  pub update_entries-loses :
      (s : SnapshotSource) (t : Tracked)
      → is_forced k t.0.force_remove ≡ false
      → (find_entry k (update_entries pre t).0.target_pre_execution_state ≡ none)
        × (view s (update_entries pre t).0 k ≡ entry_answer (s k))
  unfolding update_entries
  update_entries-loses s (x, changed) f =
      let gone = find_entry-update_slot x.target_pre_execution_state changed in
      (gone, view_inner s k (update_entries pre (x, changed)).0 gone f)
