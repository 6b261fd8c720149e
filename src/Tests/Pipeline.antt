-- ===== src/Tests/Pipeline.antt =====
-- Building the state of one transaction.
use mathlib.Core.Path.{fun_ext}
use native.Mathlib.Decide.{ℕ_discrete}
use retroshade.Base.{
  List, [], ◌∷◌, none, some, true, false, ◌≡◌, ◌≢◌, refl, inl, inr, arith, Bool-cases, ◌==◌, map,
}
use retroshade.Xdr.Value.{
  Bytes, Hash, ScAddress-eq, ScVal-eq, ScVal, ScAddress, Bytes-eq, Bytes-discrete,
  ScAddress-discrete, ScVal-discrete,
}
use retroshade.Xdr.Ledger.{LedgerEntry, LedgerEntryData, LedgerKey-eq, ContractDataDurability}
use retroshade.Xdr.Ledger.{LedgerKey}
use retroshade.Execution.{
  EntryWithLiveUntil, HostResult, ok, err, malformed_xdr, RetroshadesExecution, new,
}
use retroshade.Snapshot.{entry_key, entry_answer, find_entry, is_forced}
use retroshade.State.Reset.{Tracked, remove_entry, update_entries}
use retroshade.State.Reset.Remove.{survivors, victims, any_hit, remove_entry-filter}
use retroshade.State.Binaries.{replace_binaries}
use retroshade.State.Binaries.Swap.{last_code, all_contracts}
use retroshade.Retroshade.Swapped.{swapped_answer, replace_binaries-view}
use retroshade.State.Binaries.Again.{replace_binaries-again}
use retroshade.State.Binaries.Replace.{
  swap, any_swapped, all_fit, replace_binaries-swap, replace_binaries-err,
}
use retroshade.Ledger.{Applies, change_key, same_slot}
use retroshade.Ledger.View.{view}
use retroshade.Ledger.Load.{Serves, contains}
use retroshade.Ledger.Durability.{update_entries-loses}
use retroshade.Retroshade.{build_from_envelope_and_meta}
use retroshade.Retroshade.PreState.{one_operation, build-view}
use retroshade.Tests.Data.{
  persistent_key, counter_key, counter, before, after, ledger_with, source_of, update_changes,
  update_meta, envelope, loaded, instance_entry, code_entry, this_contract,
}

pub source-Serves : Serves (source_of after) (ledger_with after)
unfolding entry_key
source-Serves = record {
  answer = λ k. elim (Bool-cases (k == persistent_key)) [
    | inl h ↦ (some (after, some 100), rw h refl, rw h refl)
    | inr h ↦ (none, rw h refl, rw h refl)
  ];
  keyed = λ k e h. ground (arith, LedgerKey-eq.eqb_iff k persistent_key);
}

at_key : (e : LedgerEntry) → ledger_with e persistent_key ≡ some e
at_key e = rw ((LedgerKey-eq.eqb_iff persistent_key persistent_key).1 refl) refl

pub update-Applies : Applies (ledger_with after) update_changes (ledger_with before)
unfolding entry_key
update-Applies =
    Applies.updates persistent_key before after refl refl (at_key before) tt
      (Applies.done (fun_ext λ j. ground arith))

pub key_requested : contains (persistent_key ∷ []) persistent_key ≡ true
unfolding contains
key_requested = rw ((LedgerKey-eq.eqb_iff persistent_key persistent_key).1 refl) refl

build-view_example :
    (x : RetroshadesExecution) × (build_from_envelope_and_meta
        (source_of after)
        envelope
        update_meta
        []
        (new [])
      ≡ replace_binaries [] x)
    × (view (source_of after) x persistent_key ≡ HostResult.ok (ledger_with before persistent_key))
unfolding one_operation entry_key change_key
build-view_example =
    build-view (source_of after) (ledger_with after) (ledger_with before) source-Serves
      persistent_key update_changes update-Applies (inl refl, (inl refl, tt)) envelope update_meta
      [] [] (record { ops = []; is_soroban = refl; first = refl; invokes = refl }) refl
      (inl key_requested)

abbrev two_entries : List EntryWithLiveUntil
two_entries = (after, some 100) ∷ (code_entry (1 ∷ []), some 50) ∷ []

remove_entry-filter_example :
    remove_entry before (loaded two_entries, false)
    ≡ ok (
      record (loaded two_entries) {
        target_pre_execution_state = survivors before two_entries;
        force_remove = victims before two_entries;
      },
      any_hit before two_entries,
    )
remove_entry-filter_example = remove_entry-filter before (loaded two_entries, false)

-- The entry is gone, and reported.
removed_counter :
    remove_entry before (loaded two_entries, false)
    ≡ ok (
      record (loaded two_entries) {
        target_pre_execution_state = (code_entry (1 ∷ []), some 50) ∷ [];
        force_remove = after ∷ [];
      },
      true,
    )
unfolding remove_entry ScAddress-discrete ScVal-discrete Bytes-discrete ℕ_discrete
removed_counter = refl

-- Temporary data under the key of the persistent counter.
temporary_key_differs : counter_key ContractDataDurability.temporary ≢ persistent_key
temporary_key_differs = cc

update_entries-loses_example :
    let k = counter_key ContractDataDurability.temporary in
    let t : Tracked =
      (loaded ((counter ContractDataDurability.temporary ScVal.void, some 9) ∷ []), false) in
    (find_entry k (update_entries before t).0.target_pre_execution_state ≡ none)
    × (view (source_of after) (update_entries before t).0 k ≡ entry_answer (source_of after k))
unfolding entry_key same_slot is_forced
update_entries-loses_example =
    update_entries-loses (counter_key ContractDataDurability.temporary) persistent_key before refl
      (ground (
        arith,
        ScAddress-eq.eqb_iff this_contract this_contract,
        ScVal-eq.eqb_iff (ScVal.symbol (b'c' ∷ [])) (ScVal.symbol (b'c' ∷ [])),
      ))
      temporary_key_differs (source_of after)
      (loaded ((counter ContractDataDurability.temporary ScVal.void, some 9) ∷ []), false) refl

abbrev contract_entries : List EntryWithLiveUntil
contract_entries = (instance_entry, some 100) ∷ (code_entry (1 ∷ []), some 50) ∷ []

abbrev registry : List (Hash × Bytes)
registry = (7 ∷ [], 2 ∷ 3 ∷ []) ∷ []

replace_binaries-swap_example :
    let codes = last_code registry contract_entries in
    replace_binaries registry (loaded contract_entries) ≡ (
      ok (any_swapped codes contract_entries),
      record (loaded contract_entries) {
        target_pre_execution_state = map (swap codes) contract_entries;
      },
    )
unfolding all_contracts all_fit
replace_binaries-swap_example = replace_binaries-swap registry (loaded contract_entries) refl refl

abbrev code_key : LedgerKey
code_key = LedgerKey.contract_code (record { hash = 5 ∷ [] })

replace_binaries-view_example :
    view (source_of after) (replace_binaries registry (loaded contract_entries)).1 code_key
    ≡ swapped_answer
        (last_code registry contract_entries)
        (find_entry code_key contract_entries)
        (view (source_of after) (loaded contract_entries) code_key)
unfolding all_contracts all_fit
replace_binaries-view_example =
    replace_binaries-view (source_of after) registry (loaded contract_entries) code_key refl refl

replace_binaries-again_example :
    replace_binaries registry (replace_binaries registry (loaded contract_entries)).1
    ≡ replace_binaries registry (loaded contract_entries)
replace_binaries-again_example = replace_binaries-again registry (loaded contract_entries)

-- The code of the registered contract is replaced, and keeps its lifetime.
replaced_code :
    replace_binaries registry (loaded contract_entries)
    ≡ (ok true, loaded ((instance_entry, some 100) ∷ (code_entry (2 ∷ 3 ∷ []), some 50) ∷ []))
unfolding replace_binaries Bytes-discrete ℕ_discrete
replaced_code = refl

abbrev account_data : LedgerEntry
account_data = record before {
  payload = LedgerEntryData.contract_data (record {
    contract = ScAddress.account (record { ed25519 = 1 ∷ [] });
    key = ScVal.void;
    durability = ContractDataDurability.persistent;
    val = ScVal.void;
  });
}

replace_binaries-err_example :
    replace_binaries registry (loaded ((account_data, none) ∷ []))
    ≡ (err malformed_xdr, loaded ((account_data, none) ∷ []))
unfolding all_contracts
replace_binaries-err_example =
    replace_binaries-err registry (loaded ((account_data, none) ∷ [])) refl
