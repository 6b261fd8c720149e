-- ===== src/State/Binaries/Swap.antt =====
-- `replace_binaries` of retroshade/src/state.rs as one map over the state.
use retroshade.Base.{
  Bool, true, false, ◌&&◌, List, [], ◌∷◌, Option, none, some, if◌then◌else◌, ◌==◌, ◌≡◌, refl, ap,
  ◌∙◌, inl, inr, Bool-cases, arith,
}
use retroshade.Xdr.Value.{Bytes, Hash, ScAddress, ScVal, ContractExecutable, Bytes-eq}
use retroshade.Xdr.Ledger.{LedgerEntryData}
use retroshade.Execution.{EntryWithLiveUntil, malformed_xdr, ok, err}
use retroshade.State.Binaries.{
  Binaries, get, registered_mutation, contract_mutation, entry_mutation, binaries_mutation,
}

-- The contract and the code hash of a contract's instance entry.
instance_parts : ScAddress → ScVal → ScVal → Option (Hash × Hash)
instance_parts (ScAddress.contract hash) ScVal.ledger_key_contract_instance
      (ScVal.contract_instance (ContractExecutable.wasm wasm) _) =
    some (hash, wasm)
instance_parts _ _ _ = none

unfoldable pub instance_wasm : LedgerEntryData → Option (Hash × Hash)
unfolding instance_parts
instance_wasm (LedgerEntryData.contract_data d) = instance_parts d.contract d.key d.val
instance_wasm _ = none

-- The code that an entry asks for under a code hash.
unfoldable pub instance_code : Binaries → LedgerEntryData → Hash → Option Bytes
unfolding instance_wasm
instance_code mercury e h = elim (instance_wasm e) [
  | none ↦ none
  | some (contract, wasm) ↦ if wasm == h then get mercury contract else none
]

abbrev pub or_else : Option Bytes → Option Bytes → Option Bytes
or_else none other = other
or_else (some c) other = some c

-- Of the instances that share a code hash, the last registered one decides.
unfoldable pub last_code : Binaries → List EntryWithLiveUntil → Hash → Option Bytes
last_code mercury [] h = none
last_code mercury ((e, _) ∷ es) h =
    or_else (last_code mercury es h) (instance_code mercury e.payload h)

pub has_contract : LedgerEntryData → Bool
has_contract (LedgerEntryData.contract_data d) = elim d.contract [
  | ScAddress.contract _ ↦ true
  | _ ↦ false
]
has_contract _ = true

-- Contract data stands under contracts only.
unfoldable pub all_contracts : List EntryWithLiveUntil → Bool
unfolding has_contract
all_contracts [] = true
all_contracts ((e, _) ∷ es) = has_contract e.payload && all_contracts es

mutation-instance :
    (hash : Hash) (o : Option Bytes) (key val : ScVal) (mutation : Binaries) (h : Hash)
    (mercury : Binaries)
    → get mercury hash ≡ o
    → get (registered_mutation o key val mutation) h
      ≡ or_else
          (elim (instance_parts (ScAddress.contract hash) key val) [
            | none ↦ none
            | some (contract, wasm) ↦ if wasm == h then get mercury contract else none
          ])
          (get mutation h)
unfolding registered_mutation instance_parts get
mutation-instance hash none ScVal.ledger_key_contract_instance
      (ScVal.contract_instance (ContractExecutable.wasm wasm) _) mutation h mercury e =
    ground arith
mutation-instance hash (some c) ScVal.ledger_key_contract_instance
      (ScVal.contract_instance (ContractExecutable.wasm wasm) _) mutation h mercury e =
    ground arith
mutation-instance hash none key val mutation h mercury e = refl
mutation-instance hash (some _) key val mutation h mercury e = refl

-- One round of the first loop: under a contract it adds what the entry asks for.
entry_mutation-get :
    (mercury : Binaries) (e : LedgerEntryData) (mutation : Binaries)
    → has_contract e ≡ true
    → (m : Binaries) × (entry_mutation mercury e mutation ≡ ok m)
      × ((h : Hash) → get m h ≡ or_else (instance_code mercury e h) (get mutation h))
unfolding entry_mutation has_contract instance_code
entry_mutation-get mercury (LedgerEntryData.contract_data d) mutation c = go d.contract c
  where
    go :
        (address : ScAddress)
        → (elim address [ ScAddress.contract _ ↦ true | _ ↦ false ]) ≡ true
        → (m : Binaries) × (contract_mutation mercury address d.key d.val mutation ≡ ok m)
          × ((h : Hash)
              → get m h
                ≡ or_else
                    (elim (instance_parts address d.key d.val) [
                      | none ↦ none
                      | some (contract, wasm) ↦ if wasm == h then get mercury contract else none
                    ])
                    (get mutation h))
    go (ScAddress.contract hash) c = (
      registered_mutation (get mercury hash) d.key d.val mutation,
      refl,
      λ h. mutation-instance hash (get mercury hash) d.key d.val mutation h mercury refl,
    )
    go (ScAddress.account _) c = cc
    go (ScAddress.muxed_account _) c = cc
    go (ScAddress.claimable_balance _) c = cc
    go (ScAddress.liquidity_pool _) c = cc
entry_mutation-get mercury (LedgerEntryData.account _) mutation c = (mutation, refl, λ h. refl)
entry_mutation-get mercury _ mutation c = (mutation, refl, λ h. refl)

or_else_assoc : (a b c : Option Bytes) → or_else a (or_else b c) ≡ or_else (or_else a b) c
or_else_assoc none b c = refl
or_else_assoc (some x) b c = refl

entry_mutation-err :
    (mercury : Binaries) (e : LedgerEntryData) (mutation : Binaries)
    → has_contract e ≡ false
    → entry_mutation mercury e mutation ≡ err malformed_xdr
unfolding entry_mutation has_contract
entry_mutation-err mercury (LedgerEntryData.contract_data d) mutation c = go d.contract c
  where
    go :
        (address : ScAddress)
        → (elim address [ ScAddress.contract _ ↦ true | _ ↦ false ]) ≡ false
        → contract_mutation mercury address d.key d.val mutation ≡ err malformed_xdr
    go (ScAddress.contract hash) c = cc
    go _ c = refl
entry_mutation-err mercury (LedgerEntryData.account _) mutation c = cc
entry_mutation-err mercury _ mutation c = cc

-- The map that the first loop builds.
pub binaries_mutation-get :
    (mercury : Binaries) (st : List EntryWithLiveUntil) (mutation : Binaries)
    → all_contracts st ≡ true
    → (m : Binaries) × (binaries_mutation mercury st mutation ≡ ok m)
      × ((h : Hash) → get m h ≡ or_else (last_code mercury st h) (get mutation h))
unfolding binaries_mutation last_code all_contracts
binaries_mutation-get mercury [] mutation c = (mutation, refl, λ h. refl)
binaries_mutation-get mercury ((e, ttl) ∷ es) mutation c =
    let (m, run, at) = entry_mutation-get mercury e.payload mutation (ground arith) in
    let (m', run', at') = binaries_mutation-get mercury es m (ground arith) in
    (
      m',
      rw run run',
      λ h.
          at' h
          ∙ ap (or_else (last_code mercury es h)) (at h)
          ∙ or_else_assoc (last_code mercury es h) (instance_code mercury e.payload h)
              (get mutation h),
    )

-- Contract data under another address: the loop ends with the error.
pub binaries_mutation-err :
    (mercury : Binaries) (st : List EntryWithLiveUntil) (mutation : Binaries)
    → all_contracts st ≡ false
    → binaries_mutation mercury st mutation ≡ err malformed_xdr
unfolding binaries_mutation all_contracts
binaries_mutation-err mercury [] mutation c = cc
binaries_mutation-err mercury ((e, ttl) ∷ es) mutation c =
    elim (Bool-cases (has_contract e.payload)) [
      | inl h ↦
          let (m, run, _) = entry_mutation-get mercury e.payload mutation h in
          rw run (binaries_mutation-err mercury es m (rw h at c))
      | inr h ↦ rw (entry_mutation-err mercury e.payload mutation h) refl
    ]
