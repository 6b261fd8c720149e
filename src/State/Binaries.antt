-- ===== src/State/Binaries.antt =====
-- retroshade/src/state.rs: `replace_binaries`, which swaps the code of the registered contracts.
pub mod Swap
pub mod Replace
pub mod Lifetimes
pub mod Nothing
pub mod Again
use retroshade.Base.{
  Bool, true, false, List, [], ◌∷◌, Option, none, some, ltb, if◌then◌else◌, ◌==◌, length,
}
use retroshade.Xdr.Value.{Bytes, Hash, ScAddress, ScVal, ContractExecutable, Bytes-eq}
use retroshade.Xdr.Ledger.{LedgerEntry, LedgerEntryData, ContractCodeEntry}
use retroshade.Execution.{
  EntryWithLiveUntil, malformed_xdr, Outcome, ok, err, panic, ◌>>=◌, RetroshadesExecution, Step,
}
use retroshade.State.Reset.{u32_max}

-- A `HashMap` that is only inserted into and read.
module _ {ℓ} {V : Type ℓ} where
  unfoldable pub get : List (Hash × V) → Hash → Option V
  get [] h = none
  get ((k, v) ∷ m) h = if k == h then some v else get m h

  unfoldable pub insert : Hash → V → List (Hash × V) → List (Hash × V)
  insert h v m = (h, v) ∷ m

abbrev pub Binaries : Type 0
Binaries = List (Hash × Bytes)

-- The entry under the instance key of a registered contract: its code hash is to be replaced.
unfoldable pub instance_mutation : ScVal → ScVal → Bytes → Binaries → Binaries
unfolding insert
instance_mutation ScVal.ledger_key_contract_instance
      (ScVal.contract_instance (ContractExecutable.wasm wasm) _) new_code mutation =
    insert wasm new_code mutation
instance_mutation _ _ new_code mutation = mutation

unfoldable pub registered_mutation : Option Bytes → ScVal → ScVal → Binaries → Binaries
unfolding instance_mutation
registered_mutation none key val mutation = mutation
registered_mutation (some new_code) key val mutation = instance_mutation key val new_code mutation

unfoldable pub contract_mutation :
    Binaries → ScAddress → ScVal → ScVal → Binaries → Outcome Binaries
unfolding registered_mutation get
contract_mutation mercury (ScAddress.contract hash) key val mutation =
    ok (registered_mutation (get mercury hash) key val mutation)
contract_mutation mercury _ key val mutation = err malformed_xdr

unfoldable pub entry_mutation : Binaries → LedgerEntryData → Binaries → Outcome Binaries
unfolding contract_mutation
entry_mutation mercury (LedgerEntryData.contract_data d) mutation =
    contract_mutation mercury d.contract d.key d.val mutation
entry_mutation mercury _ mutation = ok mutation

-- The first loop, which builds `binaries_mutation`.
unfoldable pub binaries_mutation : Binaries → List EntryWithLiveUntil → Binaries → Outcome Binaries
unfolding entry_mutation
binaries_mutation mercury [] mutation = ok mutation
binaries_mutation mercury ((e, ttl) ∷ es) mutation = do
  mutation' ← entry_mutation mercury e.payload mutation
  binaries_mutation mercury es mutation'

-- A `BytesM` holds at most `u32::MAX` bytes; the conversion of a longer vector is unwrapped.
abbrev with_code : LedgerEntry → ContractCodeEntry → Bytes → Outcome LedgerEntry
with_code e code_entry new_code =
    if ltb u32_max (length new_code)
    then panic
    else ok (record e {
      payload = LedgerEntryData.contract_code (record code_entry { code = new_code });
    })

code_replacement :
    LedgerEntry → ContractCodeEntry → Option Bytes → Bool → Outcome (LedgerEntry × Bool)
code_replacement e code_entry none replaced = ok (e, replaced)
code_replacement e code_entry (some new_code) replaced = do
  e' ← with_code e code_entry new_code
  ok (e', true)

unfoldable pub entry_replacement :
    Binaries → LedgerEntry → LedgerEntryData → Bool → Outcome (LedgerEntry × Bool)
unfolding code_replacement get
entry_replacement mutation e (LedgerEntryData.contract_code code_entry) replaced =
    code_replacement e code_entry (get mutation code_entry.hash) replaced
entry_replacement mutation e _ replaced = ok (e, replaced)

-- The second loop, over `iter_mut`.
unfoldable pub replace_codes :
    Binaries → List EntryWithLiveUntil → Bool → Outcome (List EntryWithLiveUntil × Bool)
unfolding entry_replacement
replace_codes mutation [] replaced = ok ([], replaced)
replace_codes mutation ((e, ttl) ∷ es) replaced = do
  (e', replaced') ← entry_replacement mutation e e.payload replaced
  (es', replaced'') ← replace_codes mutation es replaced'
  ok ((e', ttl) ∷ es', replaced'')

unfoldable pub replaced_state :
    Binaries → List EntryWithLiveUntil → Outcome (List EntryWithLiveUntil × Bool)
unfolding binaries_mutation replace_codes
replaced_state mercury st = do
  mutation ← binaries_mutation mercury st []
  replace_codes mutation st false

abbrev pub store_state : Outcome (List EntryWithLiveUntil × Bool) → RetroshadesExecution → Step Bool
store_state (ok (st, replaced)) x = (ok replaced, record x { target_pre_execution_state = st })
store_state (err e) x = (err e, x)
store_state panic x = (panic, x)

unfoldable pub replace_binaries : Binaries → RetroshadesExecution → Step Bool
unfolding replaced_state
replace_binaries mercury x = store_state (replaced_state mercury x.target_pre_execution_state) x
