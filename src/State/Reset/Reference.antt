-- ===== src/State/Reset/Reference.antt =====
-- `state_reset_to_pre_execution` of retroshade/src/state.rs against a reference without indices.
use mathlib.Core.List.{map-map}
use retroshade.Base.{
  Bool, true, false, ◌||◌, ◌&&◌, ◌↔◌, sym, List, [], ◌∷◌, ◌++◌, map, Option, none, some,
  if◌then◌else◌, ◌≡◌, refl, inl, inr, Bool-cases, arith,
}
use retroshade.Xdr.Ledger.{LedgerEntry, LedgerEntryData, LedgerEntryChange}
use retroshade.Xdr.Value.{Bytes-eq, AccountId-eq, ScAddress-eq, ScVal-eq}
use retroshade.Xdr.Transaction.{OperationMeta, OperationMetaV2, TransactionMeta}
use retroshade.Execution.{EntryWithLiveUntil, ok, err, not_soroban_tx, RetroshadesExecution}
use retroshade.State.Reset.{
  v1, v2, MetaOperation, Tracked, is_target, same_data, update_loop, update_entries, add_entry,
  process_changes, process_operation, process_operations, changes_of, u32_max,
  state_reset_to_pre_execution,
}
use retroshade.State.Reset.Remove.{survivors, victims, any_hit, remove_entry-filter}

both_iff {ℓ κ} :
    {P : Type ℓ} {Q : Type κ} {a b : Bool}
    → (a ≡ true) ↔ P
    → (b ≡ true) ↔ Q
    → ((a && b) ≡ true) ↔ (P × Q)
both_iff {a} {b} p q =
    (λ h. (p.0 (ground arith), q.0 (ground arith)), λ (x, y). rw (p.1 x, q.1 y) refl)

neither : (false ≡ true) ↔ ⊥
neither = (λ h. let no_way : false ≡ true = h in cc, λ e. absurd e)

-- Two entries that stand in one place of the ledger, but for the durability of contract data.
abbrev pub SamePlace : LedgerEntryData → LedgerEntryData → Type 0
SamePlace (LedgerEntryData.contract_code a) (LedgerEntryData.contract_code b) = a.hash ≡ b.hash
SamePlace (LedgerEntryData.contract_data a) (LedgerEntryData.contract_data b) =
    (a.contract ≡ b.contract) × (a.key ≡ b.key)
SamePlace (LedgerEntryData.trustline a) (LedgerEntryData.trustline b) =
    (a.account_id ≡ b.account_id) × (a.asset ≡ b.asset)
SamePlace (LedgerEntryData.account a) (LedgerEntryData.account b) = a.account_id ≡ b.account_id
SamePlace _ _ = ⊥

-- Contract data in one place.
abbrev pub SameData : LedgerEntryData → LedgerEntryData → Type 0
SameData (LedgerEntryData.contract_data a) (LedgerEntryData.contract_data b) =
    (a.contract ≡ b.contract) × (a.key ≡ b.key)
SameData _ _ = ⊥

is_target-SamePlace : (a b : LedgerEntryData) → (is_target a b ≡ true) ↔ SamePlace a b
unfolding is_target
is_target-SamePlace (LedgerEntryData.contract_code a) (LedgerEntryData.contract_code b) = (
  λ h. sym ((Bytes-eq.eqb_iff b.hash a.hash).0 h),
  λ e. (Bytes-eq.eqb_iff b.hash a.hash).1 (sym e),
)
is_target-SamePlace (LedgerEntryData.contract_data a) (LedgerEntryData.contract_data b) =
    both_iff (ScAddress-eq.eqb_iff a.contract b.contract) (ScVal-eq.eqb_iff a.key b.key)
is_target-SamePlace (LedgerEntryData.trustline a) (LedgerEntryData.trustline b) =
    let both =
      both_iff (Bytes-eq.eqb_iff a.asset b.asset)
        (AccountId-eq.eqb_iff a.account_id b.account_id) in
    (λ h. let (x, y) = both.0 h in (y, x), λ e. both.1 (e.1, e.0))
is_target-SamePlace (LedgerEntryData.account a) (LedgerEntryData.account b) =
    AccountId-eq.eqb_iff a.account_id b.account_id
is_target-SamePlace _ _ = neither

same_data-SameData : (a b : LedgerEntryData) → (same_data a b ≡ true) ↔ SameData a b
same_data-SameData (LedgerEntryData.contract_data a) (LedgerEntryData.contract_data b) =
    both_iff (ScAddress-eq.eqb_iff a.contract b.contract) (ScVal-eq.eqb_iff a.key b.key)
same_data-SameData _ _ = neither

-- An entry of the state is put back to what it was, and keeps its lifetime.
abbrev pub put_back : LedgerEntry → EntryWithLiveUntil → EntryWithLiveUntil
put_back pre (e, ttl) = (if is_target e.payload pre.payload then pre else e, ttl)

abbrev pub any_target : LedgerEntry → List EntryWithLiveUntil → Bool
any_target pre [] = false
any_target pre ((e, _) ∷ es) = is_target e.payload pre.payload || any_target pre es

-- What each change means for the state, for what is removed by force, and for the flag.
abbrev pub overwritten : LedgerEntry → Tracked → Tracked
overwritten pre (x, changed) = (
  record x { target_pre_execution_state = map (put_back pre) x.target_pre_execution_state },
  changed || any_target pre x.target_pre_execution_state,
)

abbrev pub without_entry : LedgerEntry → Tracked → Tracked
without_entry cur (x, changed) = (
  record x {
    target_pre_execution_state = survivors cur x.target_pre_execution_state;
    force_remove = x.force_remove ++ victims cur x.target_pre_execution_state;
  },
  changed || any_hit cur x.target_pre_execution_state,
)

abbrev pub restored_entry : LedgerEntry → Tracked → Tracked
restored_entry pre (x, changed) = (
  record x {
    target_pre_execution_state = x.target_pre_execution_state ++ (pre, some u32_max) ∷ [];
  },
  changed,
)

-- An entry before a change is what its `state` said; it serves one update or one removal.
unfoldable pub undo : List LedgerEntryChange → Option LedgerEntry → Tracked → Tracked
undo [] pre t = t
undo (LedgerEntryChange.state e ∷ cs) pre t = undo cs (some e) t
undo (LedgerEntryChange.updated _ ∷ cs) (some pre) t = undo cs none (overwritten pre t)
undo (LedgerEntryChange.updated _ ∷ cs) none t = undo cs none t
undo (LedgerEntryChange.created e ∷ cs) pre t = undo cs pre (without_entry e t)
undo (LedgerEntryChange.restored _ ∷ cs) pre t = undo cs pre t
undo (LedgerEntryChange.removed _ ∷ cs) (some pre) t =
    undo cs none (restored_entry pre (without_entry pre t))
undo (LedgerEntryChange.removed _ ∷ cs) none t = undo cs none t

unfoldable pub undo_all : List (List LedgerEntryChange) → Tracked → Tracked
undo_all [] t = t
undo_all (cs ∷ rest) t = undo_all rest (undo cs none t)

update_loop_lem :
    (pre : LedgerEntry) (st : List EntryWithLiveUntil) (changed : Bool)
    → update_loop pre st changed ≡ (map (put_back pre) st, changed || any_target pre st)
unfolding update_loop
update_loop_lem pre [] changed = ground arith
update_loop_lem pre ((e, ttl) ∷ es) changed = elim (Bool-cases (is_target e.payload pre.payload)) [
  | inl hit ↦ rw (hit, update_loop_lem pre es) (ground arith)
  | inr miss ↦ rw (miss, update_loop_lem pre es) (ground arith)
]

update_entries_lem : (pre : LedgerEntry) (t : Tracked) → update_entries pre t ≡ overwritten pre t
unfolding update_entries
update_entries_lem pre (x, changed) =
    rw (update_loop_lem pre x.target_pre_execution_state changed) refl

process_changes_lem :
    (cs : List LedgerEntryChange) (pre : Option LedgerEntry) (t : Tracked)
    → process_changes cs pre t ≡ ok (undo cs pre t)
unfolding process_changes undo add_entry
process_changes_lem [] pre t = refl
process_changes_lem (LedgerEntryChange.state e ∷ cs) pre t = process_changes_lem cs (some e) t
process_changes_lem (LedgerEntryChange.updated _ ∷ cs) (some pre) t =
    rw (update_entries_lem pre t) (process_changes_lem cs none (overwritten pre t))
process_changes_lem (LedgerEntryChange.updated _ ∷ cs) none t = process_changes_lem cs none t
process_changes_lem (LedgerEntryChange.created e ∷ cs) pre t =
    rw (remove_entry-filter e t) (process_changes_lem cs pre (without_entry e t))
process_changes_lem (LedgerEntryChange.restored _ ∷ cs) pre t = process_changes_lem cs pre t
process_changes_lem (LedgerEntryChange.removed _ ∷ cs) (some pre) t =
    rw (remove_entry-filter pre t)
      (process_changes_lem cs none (restored_entry pre (without_entry pre t)))
process_changes_lem (LedgerEntryChange.removed _ ∷ cs) none t = process_changes_lem cs none t

process_operations_lem :
    (ops : List MetaOperation) (t : Tracked)
    → process_operations ops t ≡ ok (undo_all (map changes_of ops) t)
unfolding process_operations process_operation undo_all
process_operations_lem [] t = refl
process_operations_lem (op ∷ ops) t =
    rw (process_changes_lem (changes_of op) none t)
      (process_operations_lem ops (undo (changes_of op) none t))

-- The changes of each operation, for the versions that a Soroban transaction has.
abbrev pub soroban_changes : TransactionMeta → Option (List (List LedgerEntryChange))
soroban_changes (TransactionMeta.v3 m) = some (map (λ (o : OperationMeta). o.changes) m.operations)
soroban_changes (TransactionMeta.v4 m) =
    some (map (λ (o : OperationMetaV2). o.changes) m.operations)
soroban_changes (TransactionMeta.other _) = none

-- The tests of the walk find the entries in one place.
abbrev pub FindPlaces : Type 0
FindPlaces =
    ((a b : LedgerEntryData) → (is_target a b ≡ true) ↔ SamePlace a b)
    × ((a b : LedgerEntryData) → (same_data a b ≡ true) ↔ SameData a b)

-- What resetting leaves.
abbrev pub ResetTo :
    Option (List (List LedgerEntryChange)) → TransactionMeta → RetroshadesExecution → Type 0
ResetTo (some changes) meta x =
    state_reset_to_pre_execution meta x
    ≡ (ok (undo_all changes (x, false)).1, (undo_all changes (x, false)).0)
ResetTo none meta x = state_reset_to_pre_execution meta x ≡ (err not_soroban_tx, x)

-- Resetting does what the reference does, which walks the changes and has no indices: an update
-- puts the noted entry back in place, a creation drops exactly the contract data under its key and
-- notes them in `force_remove`, and a removal does so and appends the noted entry, with the longest
-- lifetime. It succeeds with the flag of the reference, for a meta of version 3 or 4, whatever its
-- changes are and whatever the object has loaded. Any other version is refused, and the object is
-- left as it was. An update is of code of one hash, of data of one contract and key, of a trust line
-- of one account and asset, or of one account; what is dropped is data of one contract and key.
pub reset-ResetTo :
    (meta : TransactionMeta) (x : RetroshadesExecution)
    → FindPlaces × ResetTo (soroban_changes meta) meta x
unfolding state_reset_to_pre_execution
reset-ResetTo (TransactionMeta.v3 m) x = (
  (is_target-SamePlace, same_data-SameData),
  rw (process_operations_lem (map v1 m.operations) (x, false), map-map changes_of v1) refl,
)
reset-ResetTo (TransactionMeta.v4 m) x = (
  (is_target-SamePlace, same_data-SameData),
  rw (process_operations_lem (map v2 m.operations) (x, false), map-map changes_of v2) refl,
)
reset-ResetTo (TransactionMeta.other o) x = ((is_target-SamePlace, same_data-SameData), refl)
