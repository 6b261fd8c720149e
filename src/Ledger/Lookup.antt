-- ===== src/Ledger/Lookup.antt =====
-- Reading one key of the state before and after `update_entries` and `remove_entry`.
use retroshade.Base.{
  ℕ, Bool, true, false, List, [], ◌∷◌, ◌++◌, Option, none, some, ◌≡◌, refl, arith, if◌then◌else◌,
}
use retroshade.Xdr.Ledger.{LedgerEntry, LedgerKey}
use retroshade.Execution.{EntryWithLiveUntil}
use retroshade.Snapshot.{entry_key, has_key, find_entry, is_forced, entry_part}
use retroshade.State.Reset.{is_target, update_loop}
use retroshade.State.Reset.Remove.{survivors, victims}
use retroshade.Ledger.{same_slot, is_data_key}
use retroshade.Ledger.Slots.{
  is_target_lem, is_target_unkeyed, same_data-is_target, same_data_unkeyed, has_key_iff,
  has_key_apart, same_slot_self,
}

module _ (k p : LedgerKey) (pre : LedgerEntry) (keyed : entry_key pre.payload ≡ some p) where
  is_target_at :
      (e : LedgerEntry) → has_key k e ≡ true → is_target e.payload pre.payload ≡ same_slot k p
  is_target_at e h = is_target_lem e.payload pre.payload ((has_key_iff k e).0 h) keyed

  -- An update in another slot does not show under the key.
  pub find_entry-update_apart :
      same_slot k p ≡ false
      → (st : List EntryWithLiveUntil) (changed : Bool)
      → find_entry k (update_loop pre st changed).0 ≡ find_entry k st
  unfolding find_entry update_loop
  find_entry-update_apart a [] changed = refl
  find_entry-update_apart a ((e, ttl) ∷ es) changed = ground (
    arith,
    is_target_at e,
    has_key_apart k p pre keyed a,
    find_entry-update_apart a es (if is_target e.payload pre.payload then true else changed),
  )

  -- Removing contract data of another slot does not show, and does not hide the key.
  pub find_entry-survivors_apart :
      is_data_key p ≡ true
      → same_slot k p ≡ false
      → (st : List EntryWithLiveUntil) → find_entry k (survivors pre st) ≡ find_entry k st
  unfolding find_entry survivors
  find_entry-survivors_apart d a [] = refl
  find_entry-survivors_apart d a ((e, ttl) ∷ es) = ground (
    arith,
    is_target_at e,
    same_data-is_target e.payload pre.payload p keyed d,
    find_entry-survivors_apart d a es,
  )

  pub is_forced-victims_apart :
      is_data_key p ≡ true
      → same_slot k p ≡ false
      → (force : List LedgerEntry) (st : List EntryWithLiveUntil)
      → is_forced k (force ++ victims pre st) ≡ is_forced k force
  unfolding is_forced victims
  is_forced-victims_apart d a [] [] = refl
  is_forced-victims_apart d a [] ((e, ttl) ∷ es) = ground (
    arith,
    is_target_at e,
    same_data-is_target e.payload pre.payload p keyed d,
    is_forced-victims_apart d a [] es,
  )
  is_forced-victims_apart d a (f ∷ force) st = rw (is_forced-victims_apart d a force st)

module _ (k : LedgerKey) (pre : LedgerEntry) (keyed : entry_key pre.payload ≡ some k) where
  own_slot : same_slot k k ≡ true
  own_slot = same_slot_self pre.payload k keyed

  own_key : has_key k pre ≡ true
  own_key = (has_key_iff k pre).1 keyed

  -- An entry that is there is replaced.
  pub find_entry-update_self :
      (st : List EntryWithLiveUntil) (changed : Bool) (r : EntryWithLiveUntil)
      → find_entry k st ≡ some r
      → entry_part (find_entry k (update_loop pre st changed).0) ≡ some pre
  unfolding find_entry update_loop
  find_entry-update_self [] changed r h = cc
  find_entry-update_self ((e, ttl) ∷ es) changed r h = ground (
    arith,
    is_target_at k k pre keyed e,
    own_slot,
    own_key,
    find_entry-update_self es (if is_target e.payload pre.payload then true else changed) r,
  )

  -- No entry under the key survives a removal, and one that was there is reported.
  pub find_entry-survivors_self :
      is_data_key k ≡ true → (st : List EntryWithLiveUntil) → find_entry k (survivors pre st) ≡ none
  unfolding find_entry survivors
  find_entry-survivors_self d [] = refl
  find_entry-survivors_self d ((e, ttl) ∷ es) = ground (
    arith,
    is_target_at k k pre keyed e,
    own_slot,
    same_data-is_target e.payload pre.payload k keyed d,
    find_entry-survivors_self d es,
  )

  pub is_forced-victims_self :
      is_data_key k ≡ true
      → (force : List LedgerEntry) (st : List EntryWithLiveUntil) (r : EntryWithLiveUntil)
      → find_entry k st ≡ some r
      → is_forced k (force ++ victims pre st) ≡ true
  unfolding is_forced find_entry victims
  is_forced-victims_self d [] [] r h = cc
  is_forced-victims_self d [] ((e, ttl) ∷ es) r h = ground (
    arith,
    is_target_at k k pre keyed e,
    own_slot,
    same_data-is_target e.payload pre.payload k keyed d,
    is_forced-victims_self d [] es r,
  )
  is_forced-victims_self d (f ∷ force) st r h =
      ground (arith, is_forced-victims_self d force st r h)

module _ (pre : LedgerEntry) (unkeyed : entry_key pre.payload ≡ none) where
  -- An entry of another kind changes nothing.
  pub update_loop_unkeyed :
      (st : List EntryWithLiveUntil) (changed : Bool) → update_loop pre st changed ≡ (st, changed)
  unfolding update_loop
  update_loop_unkeyed [] changed = refl
  update_loop_unkeyed ((e, ttl) ∷ es) changed =
      rw (is_target_unkeyed e.payload pre.payload unkeyed, update_loop_unkeyed es changed)

  pub survivors_unkeyed : (st : List EntryWithLiveUntil) → survivors pre st ≡ st
  unfolding survivors
  survivors_unkeyed [] = refl
  survivors_unkeyed ((e, ttl) ∷ es) =
      rw (same_data_unkeyed e.payload pre.payload unkeyed, survivors_unkeyed es)

  pub victims_unkeyed : (st : List EntryWithLiveUntil) → victims pre st ≡ []
  unfolding victims
  victims_unkeyed [] = refl
  victims_unkeyed ((e, ttl) ∷ es) =
      rw (same_data_unkeyed e.payload pre.payload unkeyed, victims_unkeyed es)

-- `add_entry` appends, so an entry that is there already hides it.
pub find_entry-append :
    (k : LedgerKey) (st : List EntryWithLiveUntil) (e : LedgerEntry) (ttl : Option ℕ)
    → find_entry k st ≡ none
    → has_key k e ≡ true
    → find_entry k (st ++ (e, ttl) ∷ []) ≡ some (e, ttl)
unfolding find_entry
find_entry-append k [] e ttl h own = rw own
find_entry-append k ((x, t) ∷ st) e ttl h own = ground (arith, find_entry-append k st e ttl)

pub find_entry-append_apart :
    (k : LedgerKey) (st : List EntryWithLiveUntil) (e : LedgerEntry) (ttl : Option ℕ)
    → has_key k e ≡ false
    → find_entry k (st ++ (e, ttl) ∷ []) ≡ find_entry k st
unfolding find_entry
find_entry-append_apart k [] e ttl h = rw h
find_entry-append_apart k ((x, t) ∷ st) e ttl h = ground (arith, find_entry-append_apart k st e ttl)

pub find_entry-append_found :
    (k : LedgerKey) (st : List EntryWithLiveUntil) (e : LedgerEntry) (ttl : Option ℕ)
    (r : EntryWithLiveUntil)
    → find_entry k st ≡ some r
    → find_entry k (st ++ (e, ttl) ∷ []) ≡ some r
unfolding find_entry
find_entry-append_found k [] e ttl r h = cc
find_entry-append_found k ((x, t) ∷ st) e ttl r h =
    ground (arith, find_entry-append_found k st e ttl r)
