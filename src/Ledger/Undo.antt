-- ===== src/Ledger/Undo.antt =====
-- The changes of an operation, undone: what is found under one key after `process_operation` of
-- retroshade/src/state.rs.
use retroshade.Base.{
  true, false, List, [], Option, none, some, ◌≡◌, refl, sym, ap, ◌∙◌, subst, inl, inr, Option-cases,
  arith,
}
use retroshade.Xdr.Ledger.{LedgerEntry, LedgerKey, LedgerEntryChange, LedgerKey-eq}
use retroshade.Execution.{EntryWithLiveUntil, SnapshotSource, RetroshadesExecution, HostResult, ok}
use retroshade.Snapshot.{entry_key, find_entry, is_forced, entry_part, entry_answer}
use retroshade.State.Reset.{Tracked, process_changes, update_entries, add_entry}
use retroshade.Ledger.{Ledger, write, Apart, Unaliased, Applies, is_data_key, change_key}
use retroshade.Ledger.Slots.{has_key-none, has_key_apart}
use retroshade.Ledger.Revert.{
  SameAt, SameAt-trans, slot_apart, after-Apart, update_entries-SameAt, without,
  remove_entry-without, update_entries_unkeyed, write_apart, found-update_entries, found-without,
  forced-without, found-add_entry, without-SameAt, without-SameAt_unkeyed, add_entry-SameAt,
}
use retroshade.Ledger.View.{view, view_found, view_forced, view_inner, view-SameAt}

-- The changes are processed to the end, and the object that they leave has the property.
abbrev pub Undone : (RetroshadesExecution → Type 0) → List LedgerEntryChange → Tracked → Type 0
Undone P cs t = (t' : Tracked) × (process_changes cs none t ≡ ok t') × P t'.0

module _ (k : LedgerKey) (after : Ledger) where
  -- A key in no changed slot is found as before.
  pub process_changes-SameAt :
      (cs : List LedgerEntryChange) (l : Ledger) (t : Tracked)
      → Applies after cs l
      → Apart k cs
      → Undone (SameAt k t.0) cs t
  unfolding process_changes change_key
  process_changes-SameAt [] l t (Applies.done e) a =
      (t, refl, record { found = refl; forced = refl })
  process_changes-SameAt _ l t (Applies.updates {cs = rest} p pre post q _ _ _ d) a =
      let first = update_entries-SameAt k p pre t q (slot_apart k p _ q a.0) in
      let (t', e, same) = process_changes-SameAt rest _ (update_entries pre t) d a.1.1 in
      (t', e, SameAt-trans k first same)
  process_changes-SameAt _ l t (Applies.removes {cs = rest} p pre q h _ _ d) a =
      let gone = without-SameAt k p pre t q h a.1.0 in
      let back = add_entry-SameAt k pre (without pre t) (has_key_apart k p pre q a.1.0) in
      let (t', e, same) = process_changes-SameAt rest _ (add_entry pre (without pre t)) d a.1.1 in
      (t', rw (remove_entry-without pre t) e, SameAt-trans k (SameAt-trans k gone back) same)
  process_changes-SameAt _ l t (Applies.creates {cs = rest} p x q h _ _ d) a =
      let gone = without-SameAt k p x t q h (slot_apart k p _ q a.0) in
      let (t', e, same) = process_changes-SameAt rest _ (without x t) d a.1 in
      (t', rw (remove_entry-without x t) e, SameAt-trans k gone same)
  process_changes-SameAt _ l t (Applies.restores {cs = rest} x d) a =
      process_changes-SameAt rest l t d a.1
  process_changes-SameAt _ l t (Applies.updates_other {cs = rest} pre post q _ d) a =
      let (t', e, same) = process_changes-SameAt rest l t d a.1.1 in
      (t', rw (update_entries_unkeyed pre t q) e, same)
  process_changes-SameAt _ l t (Applies.removes_other {cs = rest} key pre q d) a =
      let gone = without-SameAt_unkeyed k pre t q in
      let back = add_entry-SameAt k pre (without pre t) (has_key-none k pre q) in
      let (t', e, same) = process_changes-SameAt rest l (add_entry pre (without pre t)) d a.1.1 in
      (t', rw (remove_entry-without pre t) e, SameAt-trans k (SameAt-trans k gone back) same)
  process_changes-SameAt _ l t (Applies.creates_other {cs = rest} x q d) a =
      let gone = without-SameAt_unkeyed k x t q in
      let (t', e, same) = process_changes-SameAt rest l (without x t) d a.1 in
      (t', rw (remove_entry-without x t) e, SameAt-trans k gone same)

-- The entry under the key has been loaded, and the source has the ledger after the changes.
pub record IsLoaded (s : SnapshotSource) (k : LedgerKey) (v : Option LedgerEntry)
    (x : RetroshadesExecution) : Type 0 where
  pub loaded : entry_part (find_entry k x.target_pre_execution_state) ≡ v
  pub not_forced : is_forced k x.force_remove ≡ false
  pub inner : entry_answer (s k) ≡ HostResult.ok v

some_of_entry_part :
    (o : Option EntryWithLiveUntil) (e : LedgerEntry)
    → entry_part o ≡ some e
    → (r : EntryWithLiveUntil) × (o ≡ some r)
some_of_entry_part none e h = cc
some_of_entry_part (some r) e h = (r, refl)

module _ (s : SnapshotSource) (k : LedgerKey) (after : Ledger) where
  pub IsLoaded-view :
      (x : RetroshadesExecution) (v : Option LedgerEntry)
      → IsLoaded s k v x
      → view s x k ≡ HostResult.ok v
  IsLoaded-view x v h = elim (Option-cases (find_entry k x.target_pre_execution_state)) [
    | inl e ↦ view_inner s k x e h.not_forced ∙ h.inner
    | inr (r, e) ↦ view_found s k x r.0 (rw e) ∙ ap HostResult.ok (ap entry_part (sym e) ∙ h.loaded)
  ]

  IsLoaded-SameAt :
      (x y : RetroshadesExecution)
      → SameAt k x y
      → IsLoaded s k (after k) x
      → IsLoaded s k (after k) y
  IsLoaded-SameAt x y same h = record {
    loaded = rw same.found h.loaded;
    not_forced = same.forced ∙ h.not_forced;
    inner = h.inner;
  }

  -- What the changes that follow in other slots leave of a view.
  pub Undone-view :
      (cs : List LedgerEntryChange) (l : Ledger) (t : Tracked) (v : Option LedgerEntry)
      → Applies after cs l
      → Apart k cs
      → view s t.0 k ≡ HostResult.ok v
      → Undone (λ x. view s x k ≡ HostResult.ok v) cs t
  Undone-view cs l t v d a shown =
      let (t', e, same) = process_changes-SameAt k after cs l t d a in
      (t', e, view-SameAt s k t.0 t'.0 same ∙ shown)

  write_self : (l : Ledger) (v : Option LedgerEntry) → write l k v k ≡ v
  write_self l v = ground (arith, LedgerKey-eq.eqb_iff k k)

  -- The changes at the key itself. What the ledger holds under it in the end follows from the
  -- change, since nothing after it is in the slot.
  undo_updates :
      (cs : List LedgerEntryChange) (l : Ledger) (t : Tracked) (pre post : LedgerEntry)
      → entry_key pre.payload ≡ some k
      → Apart k cs
      → Applies after cs (write l k (some post))
      → IsLoaded s k (after k) t.0
      → Undone (λ x. view s x k ≡ HostResult.ok (some pre)) cs (update_entries pre t)
  undo_updates cs l t pre post q a d h =
      let held = h.loaded ∙ after-Apart k after cs _ d a ∙ write_self l (some post) in
      let (r, e) = some_of_entry_part _ post held in
      Undone-view cs _ _ (some pre) d a
        (view_found s k (update_entries pre t).0 pre (found-update_entries k pre q t r e))

  undo_removes :
      (cs : List LedgerEntryChange) (l : Ledger) (t : Tracked) (pre : LedgerEntry)
      → entry_key pre.payload ≡ some k
      → is_data_key k ≡ true
      → Apart k cs
      → Applies after cs (write l k none)
      → IsLoaded s k (after k) t.0
      → Undone (λ x. view s x k ≡ HostResult.ok (some pre)) cs (add_entry pre (without pre t))
  undo_removes cs l t pre q i a d h = Undone-view cs (write l k none) _ (some pre) d a (
      view_found s k (add_entry pre (without pre t)).0 pre
        (found-add_entry k pre q (without pre t) (found-without k pre q t i)))

  undo_creates :
      (cs : List LedgerEntryChange) (l : Ledger) (t : Tracked) (e : LedgerEntry)
      → entry_key e.payload ≡ some k
      → is_data_key k ≡ true
      → Apart k cs
      → Applies after cs (write l k (some e))
      → IsLoaded s k (after k) t.0
      → Undone (λ x. view s x k ≡ HostResult.ok none) cs (without e t)
  undo_creates cs l t e q i a d h =
      let held = h.loaded ∙ after-Apart k after cs _ d a ∙ write_self l (some e) in
      let (r, found) = some_of_entry_part _ e held in
      Undone-view cs _ _ none d a (
        view_forced s k (without e t).0 (found-without k e q t i)
          (forced-without k e q t r i found))

  -- From a state that was loaded from the ledger after the changes, processing them shows the
  -- ledger before them.
  pub undone :
      (cs : List LedgerEntryChange) (l : Ledger) (t : Tracked)
      → Applies after cs l
      → Unaliased k cs
      → IsLoaded s k (after k) t.0
      → Undone (λ x. view s x k ≡ HostResult.ok (l k)) cs t
  unfolding process_changes change_key
  undone [] l t (Applies.done e) a h =
      (t, refl, IsLoaded-view t.0 (after k) h ∙ ap (λ (f : Ledger). HostResult.ok (f k)) (sym e))
  undone _ l t (Applies.updates {cs = rest} p pre post q _ old own d) a h = elim a.0 [
    | inl e ↦
        let pk : p ≡ k = cc in
        let (t', run, shown) =
          undo_updates rest l t pre post e (subst (λ j. Apart j rest) pk own)
            (subst (λ j. Applies after rest (write l j (some post))) pk d) h in
        (t', run, shown ∙ ap HostResult.ok (sym (subst (λ j. l j ≡ some pre) pk old)))
    | inr n ↦
        let apart = slot_apart k p _ q n in
        let same = update_entries-SameAt k p pre t q apart in
        let (t', run, shown) =
          undone rest _ (update_entries pre t) d a.1.1 (IsLoaded-SameAt t.0 _ same h) in
        (t', run, shown ∙ ap HostResult.ok (write_apart l k p pre (some post) q apart))
  ]
  undone _ l t (Applies.removes {cs = rest} p pre q i old own d) a h = elim a.0 [
    | inl e ↦
        let pk : p ≡ k = cc in
        let (t', run, shown) =
          undo_removes rest l t pre e (subst (λ j. is_data_key j ≡ true) pk i)
            (subst (λ j. Apart j rest) pk own)
            (subst (λ j. Applies after rest (write l j none)) pk d) h in
        (
          t',
          rw (remove_entry-without pre t) run,
          shown ∙ ap HostResult.ok (sym (subst (λ j. l j ≡ some pre) pk old)),
        )
    | inr n ↦
        let apart = slot_apart k p _ q n in
        let gone = without-SameAt k p pre t q i apart in
        let back = add_entry-SameAt k pre (without pre t) (has_key_apart k p pre q apart) in
        let (t', run, shown) =
          undone rest _ (add_entry pre (without pre t)) d a.1.1
            (IsLoaded-SameAt t.0 _ (SameAt-trans k gone back) h) in
        (
          t',
          rw (remove_entry-without pre t) run,
          shown ∙ ap HostResult.ok (write_apart l k p pre none q apart),
        )
  ]
  undone _ l t (Applies.creates {cs = rest} p x q i old own d) a h = elim a.0 [
    | inl e ↦
        let pk : p ≡ k = cc in
        let (t', run, shown) =
          undo_creates rest l t x e (subst (λ j. is_data_key j ≡ true) pk i)
            (subst (λ j. Apart j rest) pk own)
            (subst (λ j. Applies after rest (write l j (some x))) pk d) h in
        (
          t',
          rw (remove_entry-without x t) run,
          shown ∙ ap HostResult.ok (sym (subst (λ j. l j ≡ none) pk old)),
        )
    | inr n ↦
        let apart = slot_apart k p _ q n in
        let same = without-SameAt k p x t q i apart in
        let (t', run, shown) = undone rest _ (without x t) d a.1 (IsLoaded-SameAt t.0 _ same h) in
        (
          t',
          rw (remove_entry-without x t) run,
          shown ∙ ap HostResult.ok (write_apart l k p x (some x) q apart),
        )
  ]
  undone _ l t (Applies.restores {cs = rest} x d) a h = undone rest l t d a.1 h
  undone _ l t (Applies.updates_other {cs = rest} pre post q _ d) a h =
      let (t', run, shown) = undone rest l t d a.1.1 h in
      (t', rw (update_entries_unkeyed pre t q) run, shown)
  undone _ l t (Applies.removes_other {cs = rest} key pre q d) a h =
      let gone = without-SameAt_unkeyed k pre t q in
      let back = add_entry-SameAt k pre (without pre t) (has_key-none k pre q) in
      let (t', run, shown) =
        undone rest l (add_entry pre (without pre t)) d a.1.1
          (IsLoaded-SameAt t.0 _ (SameAt-trans k gone back) h) in
      (t', rw (remove_entry-without pre t) run, shown)
  undone _ l t (Applies.creates_other {cs = rest} x q d) a h =
      let gone = without-SameAt_unkeyed k x t q in
      let (t', run, shown) = undone rest l (without x t) d a.1 (IsLoaded-SameAt t.0 _ gone h) in
      (t', rw (remove_entry-without x t) run, shown)
