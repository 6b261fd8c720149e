-- ===== src/State/Lives.antt =====
-- The lifetimes of the entries of an object, through the parts of retroshade/src/state.rs.
use retroshade.Base.{
  Bool, true, false, not, ◌&&◌, List, [], ◌∷◌, ◌++◌, map, Option, none, some, ◌≡◌, refl, inl, inr,
  Bool-cases, arith,
}
use retroshade.Xdr.Ledger.{LedgerEntry, LedgerEntryData, LedgerKey, LedgerEntryChange}
use retroshade.Xdr.Transaction.{TransactionMeta}
use retroshade.Execution.{
  EntryWithLiveUntil, ok, HostResult, HostResult-cases, SnapshotSource, RetroshadesExecution,
}
use retroshade.State.Build.{push_entry, load_footprint}
use retroshade.State.Reset.{
  MetaOperation, v1, v2, state_reset_to_pre_execution, Tracked, is_target, update_loop,
  update_entries, add_entry, process_changes, process_operation, process_operations, changes_of,
  u32_max,
}
use retroshade.State.Reset.Remove.{survivors, victims, remove_entry-filter}

-- Contract data and code live until some ledger.
unfoldable pub expires : LedgerEntryData → Bool
expires (LedgerEntryData.contract_data _) = true
expires (LedgerEntryData.contract_code _) = true
expires _ = false

unfoldable pub lives : EntryWithLiveUntil → Bool
lives (e, some _) = true
lives (e, none) = not (expires e.payload)

unfoldable pub all_live : List EntryWithLiveUntil → Bool
all_live [] = true
all_live (x ∷ xs) = lives x && all_live xs

-- The source gives a lifetime with each entry that has one.
abbrev pub SourceLives : SnapshotSource → Type 0
SourceLives s =
    (k : LedgerKey) (x : EntryWithLiveUntil) → s k ≡ HostResult.ok (some x) → lives x ≡ true

abbrev pub Lives : RetroshadesExecution → Type 0
Lives x = all_live x.target_pre_execution_state ≡ true

all_live-append :
    (xs : List EntryWithLiveUntil) (y : EntryWithLiveUntil)
    → all_live xs ≡ true
    → lives y ≡ true
    → all_live (xs ++ y ∷ []) ≡ true
unfolding all_live
all_live-append [] y h g = ground arith
all_live-append (x ∷ xs) y h g = ground (arith, all_live-append xs y)

pub load_footprint-Lives :
    (s : SnapshotSource) (keys : List LedgerKey) (x : RetroshadesExecution)
    → SourceLives s
    → Lives x
    → Lives (load_footprint s keys x).1
unfolding load_footprint push_entry
load_footprint-Lives s [] x src h = h
load_footprint-Lives s (k ∷ ks) x src h = elim (HostResult-cases (s k)) [
  | inl (none, q) ↦ rw (q, load_footprint) (load_footprint-Lives s ks x src h)
  | inl (some y, q) ↦
      rw (q, load_footprint)
        (load_footprint-Lives s ks (push_entry (some y) x) src
          (all_live-append x.target_pre_execution_state y h (src k y q)))
  | inr (e, q) ↦ rw (q, load_footprint) h
]

all_live-survivors :
    (cur : LedgerEntry) (st : List EntryWithLiveUntil)
    → all_live st ≡ true
    → all_live (survivors cur st) ≡ true
unfolding all_live survivors
all_live-survivors cur [] h = refl
all_live-survivors cur ((e, ttl) ∷ es) h = ground (arith, all_live-survivors cur es)

is_target-expires : (d pre : LedgerEntryData) → is_target d pre ≡ true → expires pre ≡ expires d
unfolding is_target expires
is_target-expires (LedgerEntryData.contract_code a) (LedgerEntryData.contract_code b) h = refl
is_target-expires (LedgerEntryData.contract_data a) (LedgerEntryData.contract_data b) h = refl
is_target-expires (LedgerEntryData.trustline a) (LedgerEntryData.trustline b) h = refl
is_target-expires (LedgerEntryData.account a) (LedgerEntryData.account b) h = refl
is_target-expires _ _ h = cc

all_live-update_loop :
    (pre : LedgerEntry) (st : List EntryWithLiveUntil) (changed : Bool)
    → all_live st ≡ true
    → all_live (update_loop pre st changed).0 ≡ true
unfolding all_live update_loop lives
all_live-update_loop pre [] changed h = refl
all_live-update_loop pre ((e, some n) ∷ es) changed h =
    elim (Bool-cases (is_target e.payload pre.payload)) [
      | inl hit ↦ rw hit (all_live-update_loop pre es true h)
      | inr miss ↦ rw miss (all_live-update_loop pre es changed h)
    ]
all_live-update_loop pre ((e, none) ∷ es) changed h =
    elim (Bool-cases (is_target e.payload pre.payload)) [
      | inl hit ↦
          rw (hit, is_target-expires e.payload pre.payload hit)
            (ground (arith, all_live-update_loop pre es true))
      | inr miss ↦ rw miss (ground (arith, all_live-update_loop pre es changed))
    ]

abbrev removed : LedgerEntry → RetroshadesExecution → RetroshadesExecution
removed cur x = record x {
  target_pre_execution_state = survivors cur x.target_pre_execution_state;
  force_remove = x.force_remove ++ victims cur x.target_pre_execution_state;
}

-- What each of the three operations on the state keeps.
pub record IsKept (P : RetroshadesExecution → Type 0) : Type 0 where
  pub removes : (cur : LedgerEntry) (x : RetroshadesExecution) → P x → P (removed cur x)
  pub adds : (e : LedgerEntry) (t : Tracked) → P t.0 → P (add_entry e t).0
  pub updates : (e : LedgerEntry) (t : Tracked) → P t.0 → P (update_entries e t).0

pub Lives-IsKept : IsKept Lives
unfolding add_entry update_entries lives
Lives-IsKept = record {
  removes = λ cur x h. all_live-survivors cur x.target_pre_execution_state h;
  adds = λ e t h. all_live-append t.0.target_pre_execution_state (e, some u32_max) h refl;
  updates = λ e t h. all_live-update_loop e t.0.target_pre_execution_state t.1 h;
}

module _ (P : RetroshadesExecution → Type 0) (kept : IsKept P) where
  -- Processing the changes of an operation succeeds.
  process_changes-IsKept :
      (cs : List LedgerEntryChange) (current_state : Option LedgerEntry) (t : Tracked)
      → P t.0
      → (t' : Tracked) × (process_changes cs current_state t ≡ ok t') × P t'.0
  unfolding process_changes
  process_changes-IsKept [] o t h = (t, refl, h)
  process_changes-IsKept (LedgerEntryChange.state e ∷ cs) o t h =
      process_changes-IsKept cs (some e) t h
  process_changes-IsKept (LedgerEntryChange.updated _ ∷ cs) (some pre) t h =
      process_changes-IsKept cs none (update_entries pre t) (kept.updates pre t h)
  process_changes-IsKept (LedgerEntryChange.updated _ ∷ cs) none t h =
      process_changes-IsKept cs none t h
  process_changes-IsKept (LedgerEntryChange.created e ∷ cs) o t h =
      rw (remove_entry-filter e t) (process_changes-IsKept cs o _ (kept.removes e t.0 h))
  process_changes-IsKept (LedgerEntryChange.restored _ ∷ cs) o t h = process_changes-IsKept cs o t h
  process_changes-IsKept (LedgerEntryChange.removed _ ∷ cs) (some pre) t h =
      rw (remove_entry-filter pre t) (
        process_changes-IsKept cs none (add_entry pre _) (kept.adds pre _ (kept.removes pre t.0 h)))
  process_changes-IsKept (LedgerEntryChange.removed _ ∷ cs) none t h =
      process_changes-IsKept cs none t h

  process_operations-IsKept :
      (ops : List MetaOperation) (t : Tracked)
      → P t.0
      → (t' : Tracked) × (process_operations ops t ≡ ok t') × P t'.0
  unfolding process_operations process_operation
  process_operations-IsKept [] t h = (t, refl, h)
  process_operations-IsKept (op ∷ ops) t h =
      let (t', run, p) = process_changes-IsKept (changes_of op) none t h in
      rw run (process_operations-IsKept ops t' p)

  -- Whatever the meta is, resetting keeps what its operations keep,.
  pub reset-IsKept :
      (meta : TransactionMeta) (x : RetroshadesExecution)
      → P x
      → P (state_reset_to_pre_execution meta x).1
  unfolding state_reset_to_pre_execution
  reset-IsKept (TransactionMeta.v3 m) x h =
      let (t', run, p) = process_operations-IsKept (map v1 m.operations) (x, false) h in rw run p
  reset-IsKept (TransactionMeta.v4 m) x h =
      let (t', run, p) = process_operations-IsKept (map v2 m.operations) (x, false) h in rw run p
  reset-IsKept (TransactionMeta.other o) x h = h
