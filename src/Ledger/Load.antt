-- ===== src/Ledger/Load.antt =====
-- What `build_current_state` of retroshade/src/state.rs loads, from a source that has a ledger.
use retroshade.Base.{
  ℕ, Bool, true, false, List, [], ◌∷◌, Option, none, some, ◌||◌, ◌==◌, ◌≡◌, ◌⊎◌, refl, sym, ap, ◌∙◌,
  inl, inr, subst, Bool-cases, Option-cases, arith,
}
use retroshade.Xdr.Ledger.{LedgerEntry, LedgerKey, LedgerKey-eq}
use retroshade.Execution.{EntryWithLiveUntil, SnapshotSource, RetroshadesExecution, HostResult, ok}
use retroshade.Snapshot.{entry_key, find_entry, entry_part}
use retroshade.State.Build.{load_footprint, push_entry}
use retroshade.Ledger.{Ledger}
use retroshade.Ledger.Slots.{has_key_iff}
use retroshade.Ledger.Lookup.{find_entry-append, find_entry-append_apart, find_entry-append_found}

-- The source answers every key from the ledger, whose entries stand under their own keys.
pub record Serves (s : SnapshotSource) (l : Ledger) : Type 0 where
  pub answer :
      (k : LedgerKey)
      → (r : Option EntryWithLiveUntil) × (s k ≡ HostResult.ok r) × (entry_part r ≡ l k)
  pub keyed : (k : LedgerKey) (e : LedgerEntry) → l k ≡ some e → entry_key e.payload ≡ some k

unfoldable pub contains : List LedgerKey → LedgerKey → Bool
contains [] k = false
contains (j ∷ js) k = j == k || contains js k

module _ (s : SnapshotSource) (l : Ledger) (serves : Serves s l) (k : LedgerKey) where
  -- The state has the ledger's entry under the key, or has not been asked for it.
  abbrev pub IsPartial : RetroshadesExecution → Type 0
  IsPartial x =
      (find_entry k x.target_pre_execution_state ≡ none)
      ⊎ (entry_part (find_entry k x.target_pre_execution_state) ≡ l k)

  push_entry_other :
      (j : LedgerKey) (e : LedgerEntry) (ttl : Option ℕ) (x : RetroshadesExecution)
      → l j ≡ some e
      → (j == k) ≡ false
      → find_entry k (push_entry (some (e, ttl)) x).target_pre_execution_state
        ≡ find_entry k x.target_pre_execution_state
  unfolding push_entry
  push_entry_other j e ttl x h n =
      find_entry-append_apart k x.target_pre_execution_state e ttl
        (ground (arith, has_key_iff k e, serves.keyed j e, LedgerKey-eq.eqb_iff j k))

  push_entry_own :
      (e : LedgerEntry) (ttl : Option ℕ) (x : RetroshadesExecution)
      → l k ≡ some e
      → IsPartial x
      → entry_part (find_entry k (push_entry (some (e, ttl)) x).target_pre_execution_state) ≡ l k
  unfolding push_entry
  push_entry_own e ttl x h good = elim (Option-cases (find_entry k x.target_pre_execution_state)) [
    | inl q ↦
        ap entry_part (
          find_entry-append k x.target_pre_execution_state e ttl q
            ((has_key_iff k e).1 (serves.keyed k e h)))
        ∙ sym h
    | inr (r, q) ↦ ground (arith, find_entry-append_found k x.target_pre_execution_state e ttl r)
  ]

  -- What loading some keys does to the state, under the key.
  pub record Loads (requested : Bool) (x y : RetroshadesExecution) : Type 0 where
    pub partial : IsPartial x → IsPartial y
    pub full :
        entry_part (find_entry k x.target_pre_execution_state) ≡ l k
        → entry_part (find_entry k y.target_pre_execution_state) ≡ l k
    pub got :
        IsPartial x
        → requested ≡ true
        → entry_part (find_entry k y.target_pre_execution_state) ≡ l k
    pub forced : y.force_remove ≡ x.force_remove

  push_entry-Loads :
      (j : LedgerKey) (r : Option EntryWithLiveUntil) (x : RetroshadesExecution)
      → entry_part r ≡ l j
      → Loads (j == k) x (push_entry r x)
  push_entry-Loads j none x h = record {
    partial = λ p. unfold push_entry in p;
    full = λ p. unfold push_entry in p;
    got = λ p same. unfold push_entry in ground (arith, LedgerKey-eq.eqb_iff j k);
    forced = unfold push_entry in refl;
  }
  push_entry-Loads j (some (e, ttl)) x h = elim (Bool-cases (j == k)) [
    | inl same ↦
        let jk : j ≡ k = (LedgerKey-eq.eqb_iff j k).0 same in
        let own = push_entry_own e ttl x (subst (λ i. l i ≡ some e) jk (sym h)) in
        record {
          partial = λ p. inr (own p);
          full = λ p. own (inr p);
          got = λ p _. own p;
          forced = unfold push_entry in refl;
        }
    | inr other ↦
        let kept = push_entry_other j e ttl x (sym h) other in
        record {
          partial = λ p. rw kept p;
          full = λ p. rw kept p;
          got = λ p same. cc;
          forced = unfold push_entry in refl;
        }
  ]

  -- Loading a footprint succeeds, and loads the ledger's entry under each of its keys.
  pub load_footprint-Loads :
      (keys : List LedgerKey) (x : RetroshadesExecution)
      → (y : RetroshadesExecution) × (load_footprint s keys x ≡ (ok tt, y))
        × Loads (contains keys k) x y
  unfolding load_footprint contains
  load_footprint-Loads [] x =
      (x, refl, record { partial = λ p. p; full = λ p. p; got = λ p e. cc; forced = refl })
  load_footprint-Loads (j ∷ js) x =
      let (r, q, e) = serves.answer j in
      let first = push_entry-Loads j r x e in
      let (y, run, rest) = load_footprint-Loads js (push_entry r x) in
      (
        y,
        rw (q, load_footprint) run,
        record {
          partial = λ p. rest.partial (first.partial p);
          full = λ p. rest.full (first.full p);
          got = λ p h. elim (Bool-cases (j == k)) [
            | inl same ↦ rest.full (first.got p same)
            | inr other ↦ rest.got (first.partial p) (rw other at h)
          ];
          forced = rest.forced ∙ first.forced;
        },
      )
