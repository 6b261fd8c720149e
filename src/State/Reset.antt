-- ===== src/State/Reset.antt =====
-- retroshade/src/state.rs: putting the entries that the transaction changed back to what they were
-- (`state_reset_to_pre_execution`, `process_operation` and what it calls).
pub mod Remove
pub mod Reference
use retroshade.Base.{
  ℕ, ◌+◌, ◌-◌, ◌^◌, zero, suc, Bool, true, false, ◌&&◌, List, [], ◌∷◌, ◌++◌, map, Option, none,
  some, ltb, if◌then◌else◌, ◌==◌, length,
}
use retroshade.Xdr.Value.{Bytes-eq, AccountId-eq, ScAddress-eq, ScVal-eq}
use retroshade.Xdr.Ledger.{LedgerEntry, LedgerEntryData, LedgerEntryChange}
use retroshade.Xdr.Transaction.{OperationMeta, OperationMetaV2, TransactionMeta}
use retroshade.Execution.{
  EntryWithLiveUntil, not_soroban_tx, Outcome, ok, err, panic, ◌>>=◌, RetroshadesExecution, Step,
}

abbrev pub u32_max : ℕ
u32_max = 2 ^ 32 - 1

pub data MetaOperation : Type 0 where
  v1 : OperationMeta → MetaOperation
  v2 : OperationMetaV2 → MetaOperation

-- The object and the caller's `changed: &mut bool`.
abbrev pub Tracked : Type 0
Tracked = RetroshadesExecution × Bool

-- Same contract and same key: the test by which `remove_entry` and `update_entries` compare
-- contract data.
abbrev pub same_data : LedgerEntryData → LedgerEntryData → Bool
same_data (LedgerEntryData.contract_data d) (LedgerEntryData.contract_data pre) =
    d.contract == pre.contract && d.key == pre.key
same_data _ _ = false

-- The loop of `remove_entry` over the state: the indices to delete, and their entries.
unfoldable pub collect_deletions :
    LedgerEntry
    → ℕ
    → List EntryWithLiveUntil
    → List ℕ
    → List LedgerEntry
    → List ℕ × List LedgerEntry
collect_deletions cur idx [] to_delete to_delete_force = (to_delete, to_delete_force)
collect_deletions cur idx ((e, ttl) ∷ es) to_delete to_delete_force =
    let hit = same_data e.payload cur.payload in
    collect_deletions cur (idx + 1) es (if hit then to_delete ++ idx ∷ [] else to_delete)
      (if hit then to_delete_force ++ e ∷ [] else to_delete_force)

-- `Vec::remove`, at an index that the caller has compared with the length.
unfoldable pub remove_at {ℓ} : {A : Type ℓ} → ℕ → List A → List A
remove_at i [] = []
remove_at zero (x ∷ xs) = xs
remove_at (suc i) (x ∷ xs) = x ∷ remove_at i xs

-- The loop of `remove_entry` over the indices. `idx - shift` on `usize` panics below 0; an index
-- past the end is only logged.
unfoldable pub delete_indices :
    List ℕ → ℕ → List EntryWithLiveUntil → Bool → Outcome (List EntryWithLiveUntil × Bool)
unfolding remove_at
delete_indices [] shift st changed = ok (st, changed)
delete_indices (idx ∷ rest) shift st changed =
    let target = idx - shift in
    let deleted = delete_indices rest (shift + 1) (remove_at target st) true in
    let logged = delete_indices rest shift st changed in
    if ltb idx shift then panic else if ltb target (length st) then deleted else logged

unfoldable pub remove_entry : LedgerEntry → Tracked → Outcome Tracked
unfolding collect_deletions delete_indices
remove_entry cur (x, changed) = do
  let found = collect_deletions cur 0 x.target_pre_execution_state [] []
  (st, changed') ← delete_indices found.0 0 x.target_pre_execution_state changed
  ok (
    record x { target_pre_execution_state = st; force_remove = x.force_remove ++ found.1 },
    changed',
  )

unfoldable pub add_entry : LedgerEntry → Tracked → Tracked
add_entry e (x, changed) = (
  record x { target_pre_execution_state = x.target_pre_execution_state ++ (e, some u32_max) ∷ [] },
  changed,
)

-- The four tests of `update_entries`, the entry of the state first.
unfoldable pub is_target : LedgerEntryData → LedgerEntryData → Bool
is_target (LedgerEntryData.contract_code code) (LedgerEntryData.contract_code pre) =
    pre.hash == code.hash
is_target (LedgerEntryData.contract_data d) (LedgerEntryData.contract_data pre) =
    d.contract == pre.contract && d.key == pre.key
is_target (LedgerEntryData.trustline d) (LedgerEntryData.trustline pre) =
    d.asset == pre.asset && d.account_id == pre.account_id
is_target (LedgerEntryData.account d) (LedgerEntryData.account pre) = d.account_id == pre.account_id
is_target _ _ = false

unfoldable pub update_loop :
    LedgerEntry → List EntryWithLiveUntil → Bool → List EntryWithLiveUntil × Bool
unfolding is_target
update_loop pre [] changed = ([], changed)
update_loop pre ((e, ttl) ∷ es) changed =
    let hit = is_target e.payload pre.payload in
    let (es', changed') = update_loop pre es (if hit then true else changed) in
    (if hit then (pre, ttl) ∷ es' else (e, ttl) ∷ es', changed')

unfoldable pub update_entries : LedgerEntry → Tracked → Tracked
unfolding update_loop
update_entries pre (x, changed) =
    let (st, changed') = update_loop pre x.target_pre_execution_state changed in
    (record x { target_pre_execution_state = st }, changed')

-- The loop of `process_operation`; the second argument is `current_state`.
unfoldable pub process_changes :
    List LedgerEntryChange → Option LedgerEntry → Tracked → Outcome Tracked
process_changes [] current_state t = ok t
process_changes (LedgerEntryChange.state e ∷ cs) current_state t = process_changes cs (some e) t
process_changes (LedgerEntryChange.updated _ ∷ cs) (some pre) t =
    process_changes cs none (update_entries pre t)
process_changes (LedgerEntryChange.updated _ ∷ cs) none t = process_changes cs none t
process_changes (LedgerEntryChange.created e ∷ cs) current_state t = do
  t' ← remove_entry e t
  process_changes cs current_state t'
process_changes (LedgerEntryChange.restored _ ∷ cs) current_state t =
    process_changes cs current_state t
process_changes (LedgerEntryChange.removed _ ∷ cs) (some pre) t = do
  t' ← remove_entry pre t
  process_changes cs none (add_entry pre t')
process_changes (LedgerEntryChange.removed _ ∷ cs) none t = process_changes cs none t

abbrev pub changes_of : MetaOperation → List LedgerEntryChange
changes_of (v1 m) = m.changes
changes_of (v2 m) = m.changes

unfoldable pub process_operation : MetaOperation → Tracked → Outcome Tracked
unfolding process_changes
process_operation op t = process_changes (changes_of op) none t

unfoldable pub process_operations : List MetaOperation → Tracked → Outcome Tracked
unfolding process_operation
process_operations [] t = ok t
process_operations (op ∷ ops) t = do t' ← process_operation op t; process_operations ops t'

-- `Ok(changed)`; no operation returns an error, so only a panic can end the loop early.
abbrev pub finish : Outcome Tracked → RetroshadesExecution → Step Bool
finish (ok (x, changed)) _ = (ok changed, x)
finish (err e) x = (err e, x)
finish panic x = (panic, x)

unfoldable pub state_reset_to_pre_execution : TransactionMeta → RetroshadesExecution → Step Bool
unfolding process_operations
state_reset_to_pre_execution (TransactionMeta.v3 m) x =
    finish (process_operations (map v1 m.operations) (x, false)) x
state_reset_to_pre_execution (TransactionMeta.v4 m) x =
    finish (process_operations (map v2 m.operations) (x, false)) x
state_reset_to_pre_execution (TransactionMeta.other _) x = (err not_soroban_tx, x)
