-- ===== src/State/Binaries/Nothing.antt =====
-- `replace_binaries` of retroshade/src/state.rs without any registered contract.
use retroshade.Base.{Bool, false, List, [], ◌∷◌, ◌≡◌, ◌⊎◌, refl, inl, inr}
use retroshade.Xdr.Value.{ScAddress, ScVal}
use retroshade.Xdr.Ledger.{LedgerEntry, LedgerEntryData}
use retroshade.Execution.{EntryWithLiveUntil, malformed_xdr, ok, err, RetroshadesExecution}
use retroshade.State.Binaries.{
  Binaries, contract_mutation, entry_mutation, binaries_mutation, entry_replacement, replace_codes,
  replaced_state, replace_binaries,
}

contract_mutation-nothing :
    (a : ScAddress) (key val : ScVal) (m : Binaries)
    → (contract_mutation [] a key val m ≡ ok m)
      ⊎ (contract_mutation [] a key val m ≡ err malformed_xdr)
unfolding contract_mutation
contract_mutation-nothing (ScAddress.contract h) key val m = inl refl
contract_mutation-nothing _ key val m = inr refl

entry_mutation-nothing :
    (d : LedgerEntryData) (m : Binaries)
    → (entry_mutation [] d m ≡ ok m) ⊎ (entry_mutation [] d m ≡ err malformed_xdr)
unfolding entry_mutation
entry_mutation-nothing (LedgerEntryData.contract_data d) m =
    contract_mutation-nothing d.contract d.key d.val m
entry_mutation-nothing _ m = inl refl

binaries_mutation-nothing :
    (st : List EntryWithLiveUntil) (m : Binaries)
    → (binaries_mutation [] st m ≡ ok m) ⊎ (binaries_mutation [] st m ≡ err malformed_xdr)
unfolding binaries_mutation
binaries_mutation-nothing [] m = inl refl
binaries_mutation-nothing ((e, ttl) ∷ es) m = elim (entry_mutation-nothing e.payload m) [
  | inl q ↦ rw q (binaries_mutation-nothing es m)
  | inr q ↦ rw q (inr refl)
]

entry_replacement-nothing :
    (e : LedgerEntry) (d : LedgerEntryData) (b : Bool) → entry_replacement [] e d b ≡ ok (e, b)
unfolding entry_replacement
entry_replacement-nothing e (LedgerEntryData.contract_code c) b = refl
entry_replacement-nothing e _ b = refl

replace_codes-nothing :
    (st : List EntryWithLiveUntil) (b : Bool) → replace_codes [] st b ≡ ok (st, b)
unfolding replace_codes
replace_codes-nothing [] b = refl
replace_codes-nothing ((e, ttl) ∷ es) b =
    rw (entry_replacement-nothing e e.payload b, replace_codes-nothing es b) refl

-- The object stays as it is, also where the loop ends with an error.
pub replace_binaries-nothing : (x : RetroshadesExecution) → (replace_binaries [] x).1 ≡ x
unfolding replace_binaries replaced_state
replace_binaries-nothing x = elim (binaries_mutation-nothing x.target_pre_execution_state []) [
  | inl q ↦ rw (q, replace_codes-nothing x.target_pre_execution_state false) refl
  | inr q ↦ rw q refl
]
