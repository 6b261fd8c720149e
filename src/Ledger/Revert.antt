-- ===== src/Ledger/Revert.antt =====
-- What one step of `process_operation` (retroshade/src/state.rs) leaves as it was under a key.
use mathlib.Core.List.{append-nil}
use retroshade.Base.{
  true, false, List, Option, none, some, ◌≡◌, refl, sym, ap, ◌∙◌, subst, ◌++◌, ◌||◌, arith,
}
use retroshade.Xdr.Ledger.{LedgerEntry, LedgerKey, LedgerEntryChange, LedgerKey-eq}
use retroshade.Execution.{EntryWithLiveUntil, RetroshadesExecution, ok}
use retroshade.Snapshot.{entry_key, has_key, find_entry, is_forced, entry_part}
use retroshade.State.Reset.{u32_max, Tracked, update_entries, add_entry, remove_entry}
use retroshade.State.Reset.Remove.{survivors, victims, any_hit, remove_entry-filter}
use retroshade.Ledger.{Ledger, write, KeyApart, Apart, Applies, same_slot, is_data_key, change_key}
use retroshade.Ledger.Slots.{same_slot_self, has_key_iff}
use retroshade.Ledger.Lookup.{
  find_entry-update_apart, find_entry-survivors_apart, is_forced-victims_apart,
  find_entry-update_self, find_entry-survivors_self, is_forced-victims_self, update_loop_unkeyed,
  survivors_unkeyed, victims_unkeyed, find_entry-append, find_entry-append_apart,
}

-- Nothing under the key is different in the second object.
pub record SameAt (k : LedgerKey) (x y : RetroshadesExecution) : Type 0 where
  pub found : find_entry k y.target_pre_execution_state ≡ find_entry k x.target_pre_execution_state
  pub forced : is_forced k y.force_remove ≡ is_forced k x.force_remove

pub write_apart :
    (l : Ledger) (k p : LedgerKey) (e : LedgerEntry) (v : Option LedgerEntry)
    → entry_key e.payload ≡ some p
    → same_slot k p ≡ false
    → write l p v k ≡ l k
write_apart l k p e v q a = ground (arith, LedgerKey-eq.eqb_iff k p, same_slot_self e.payload p q)

pub slot_apart :
    (k p : LedgerKey) (o : Option LedgerKey) → o ≡ some p → KeyApart k o → same_slot k p ≡ false
slot_apart k p o q a = subst (KeyApart k) q a

-- A key that the changes leave alone has the same entry in both ledgers.
pub after-Apart :
    (k : LedgerKey) (after : Ledger) (cs : List LedgerEntryChange) (l : Ledger)
    → Applies after cs l
    → Apart k cs
    → after k ≡ l k
unfolding change_key
after-Apart k after cs l (Applies.done e) a = ap (λ (f : Ledger). f k) (sym e)
after-Apart k after cs l (Applies.updates {cs = rest} p pre post q _ _ _ d) a =
    after-Apart k after rest _ d a.1.1
    ∙ write_apart l k p pre (some post) q (slot_apart k p _ q a.0)
after-Apart k after cs l (Applies.removes {cs = rest} p pre q _ _ _ d) a =
    after-Apart k after rest _ d a.1.1 ∙ write_apart l k p pre none q a.1.0
after-Apart k after cs l (Applies.creates {cs = rest} p e q _ _ _ d) a =
    after-Apart k after rest _ d a.1 ∙ write_apart l k p e (some e) q (slot_apart k p _ q a.0)
after-Apart k after cs l (Applies.restores {cs = rest} e d) a = after-Apart k after rest l d a.1
after-Apart k after cs l (Applies.updates_other {cs = rest} pre post _ _ d) a =
    after-Apart k after rest l d a.1.1
after-Apart k after cs l (Applies.removes_other {cs = rest} key pre _ d) a =
    after-Apart k after rest l d a.1.1
after-Apart k after cs l (Applies.creates_other {cs = rest} e _ d) a =
    after-Apart k after rest l d a.1

-- The object that `remove_entry` leaves.
pub without : LedgerEntry → Tracked → Tracked
without e (x, changed) = (
  record x {
    target_pre_execution_state = survivors e x.target_pre_execution_state;
    force_remove = x.force_remove ++ victims e x.target_pre_execution_state;
  },
  changed || any_hit e x.target_pre_execution_state,
)

pub remove_entry-without : (e : LedgerEntry) (t : Tracked) → remove_entry e t ≡ ok (without e t)
unfolding without
remove_entry-without e (x, changed) = remove_entry-filter e (x, changed)

pub update_entries_unkeyed :
    (pre : LedgerEntry) (t : Tracked) → entry_key pre.payload ≡ none → update_entries pre t ≡ t
unfolding update_entries
update_entries_unkeyed pre (x, changed) q =
    rw (update_loop_unkeyed pre q x.target_pre_execution_state changed)

module _ (k : LedgerKey) where
  pub SameAt-trans : {x y z : RetroshadesExecution} → SameAt k x y → SameAt k y z → SameAt k x z
  SameAt-trans f g = record { found = g.found ∙ f.found; forced = g.forced ∙ f.forced }

  -- A change in another slot, or of another kind, does not show under the key.
  pub update_entries-SameAt :
      (p : LedgerKey) (pre : LedgerEntry) (t : Tracked)
      → entry_key pre.payload ≡ some p
      → same_slot k p ≡ false
      → SameAt k t.0 (update_entries pre t).0
  unfolding update_entries
  update_entries-SameAt p pre (x, changed) q a = record {
    found = find_entry-update_apart k p pre q a x.target_pre_execution_state changed;
    forced = refl;
  }

  pub without-SameAt :
      (p : LedgerKey) (e : LedgerEntry) (t : Tracked)
      → entry_key e.payload ≡ some p
      → is_data_key p ≡ true
      → same_slot k p ≡ false
      → SameAt k t.0 (without e t).0
  unfolding without
  without-SameAt p e (x, changed) q d a = record {
    found = find_entry-survivors_apart k p e q d a x.target_pre_execution_state;
    forced = is_forced-victims_apart k p e q d a x.force_remove x.target_pre_execution_state;
  }

  pub add_entry-SameAt :
      (e : LedgerEntry) (t : Tracked) → has_key k e ≡ false → SameAt k t.0 (add_entry e t).0
  unfolding add_entry
  add_entry-SameAt e (x, changed) h = record {
    found = find_entry-append_apart k x.target_pre_execution_state e _ h;
    forced = refl;
  }

  pub without-SameAt_unkeyed :
      (e : LedgerEntry) (t : Tracked) → entry_key e.payload ≡ none → SameAt k t.0 (without e t).0
  unfolding without
  without-SameAt_unkeyed e (x, changed) q = record {
    found = rw (survivors_unkeyed e q x.target_pre_execution_state) refl;
    forced = rw (victims_unkeyed e q x.target_pre_execution_state, append-nil) refl;
  }

module _ (k : LedgerKey) (e : LedgerEntry) (keyed : entry_key e.payload ≡ some k) where
  -- At its own key an update shows the entry, and a removal hides it.
  pub found-update_entries :
      (t : Tracked) (r : EntryWithLiveUntil)
      → find_entry k t.0.target_pre_execution_state ≡ some r
      → entry_part (find_entry k (update_entries e t).0.target_pre_execution_state) ≡ some e
  unfolding update_entries
  found-update_entries (x, changed) r h =
      find_entry-update_self k e keyed x.target_pre_execution_state changed r h

  pub found-without :
      (t : Tracked)
      → is_data_key k ≡ true
      → find_entry k (without e t).0.target_pre_execution_state ≡ none
  unfolding without
  found-without (x, changed) d = find_entry-survivors_self k e keyed d x.target_pre_execution_state

  pub forced-without :
      (t : Tracked) (r : EntryWithLiveUntil)
      → is_data_key k ≡ true
      → find_entry k t.0.target_pre_execution_state ≡ some r
      → is_forced k (without e t).0.force_remove ≡ true
  unfolding without
  forced-without (x, changed) r d h =
      is_forced-victims_self k e keyed d x.force_remove x.target_pre_execution_state r h

  pub found-add_entry :
      (t : Tracked)
      → find_entry k t.0.target_pre_execution_state ≡ none
      → entry_part (find_entry k (add_entry e t).0.target_pre_execution_state) ≡ some e
  unfolding add_entry
  found-add_entry (x, changed) h = ap entry_part (
      find_entry-append k x.target_pre_execution_state e (some u32_max) h
        ((has_key_iff k e).1 keyed))
