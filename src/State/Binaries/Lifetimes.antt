-- ===== src/State/Binaries/Lifetimes.antt =====
-- `replace_binaries` leaves the lifetimes of the entries.
use retroshade.Base.{
  ℕ, Bool, true, false, not, List, [], ◌∷◌, Option, none, some, ltb, length, ◌≡◌, refl, inl, inr,
  Bool-cases, arith, ap,
}
use retroshade.Xdr.Value.{Bytes}
use retroshade.Xdr.Ledger.{LedgerEntry, LedgerEntryData, ContractCodeEntry}
use retroshade.Execution.{EntryWithLiveUntil, Outcome, ok, err, panic, RetroshadesExecution, ◌>>=◌}
use retroshade.State.Binaries.{
  get, u32_max, store_state, Binaries, code_replacement, entry_replacement, replace_codes,
  binaries_mutation, replace_binaries,
}
use retroshade.State.Lives.{expires, lives, all_live, Lives}

-- A result, if there is one, has the property.
abbrev OnOk {ℓ κ} : {A : Type ℓ} → (A → Type κ) → Outcome A → Type κ
OnOk P (ok a) = P a
OnOk P (err _) = Unit
OnOk P panic = Unit

OnOk-bind {ℓ κ ι ο} :
    {A : Type ℓ} {B : Type κ} (P : A → Type ι) (Q : B → Type ο) (o : Outcome A) (f : A → Outcome B)
    → OnOk P o
    → ((a : A) → P a → OnOk Q (f a))
    → OnOk Q (o >>= f)
OnOk-bind P Q (ok a) f p k = k a p
OnOk-bind P Q (err e) f p k = tt
OnOk-bind P Q panic f p k = tt

code_replacement-expires :
    (e : LedgerEntry) (c : ContractCodeEntry) (o : Option Bytes) (replaced : Bool)
    → e.payload ≡ LedgerEntryData.contract_code c
    → OnOk (λ r. expires r.0.payload ≡ expires e.payload) (code_replacement e c o replaced)
unfolding code_replacement expires
code_replacement-expires e c none replaced q = refl
code_replacement-expires e c (some code) replaced q =
    elim (Bool-cases (ltb u32_max (length code))) [
      | inl long ↦ rw long tt
      | inr fits ↦ rw (fits, q) refl
    ]

entry_replacement-expires :
    (m : Binaries) (e : LedgerEntry) (d : LedgerEntryData) (replaced : Bool)
    → e.payload ≡ d
    → OnOk (λ r. expires r.0.payload ≡ expires e.payload) (entry_replacement m e d replaced)
unfolding entry_replacement
entry_replacement-expires m e (LedgerEntryData.contract_code c) replaced q =
    code_replacement-expires e c (get m c.hash) replaced q
entry_replacement-expires m e (LedgerEntryData.account _) replaced q = refl
entry_replacement-expires m e (LedgerEntryData.trustline _) replaced q = refl
entry_replacement-expires m e (LedgerEntryData.contract_data _) replaced q = refl
entry_replacement-expires m e (LedgerEntryData.ttl _) replaced q = refl
entry_replacement-expires m e (LedgerEntryData.other _) replaced q = refl

lives_same :
    (e e' : LedgerEntry) (ttl : Option ℕ)
    → expires e'.payload ≡ expires e.payload
    → lives (e', ttl) ≡ lives (e, ttl)
unfolding lives
lives_same e e' none q = ap not q
lives_same e e' (some n) q = refl

replace_codes-live :
    (m : Binaries) (st : List EntryWithLiveUntil) (replaced : Bool)
    → all_live st ≡ true
    → OnOk (λ r. all_live r.0 ≡ true) (replace_codes m st replaced)
unfolding replace_codes all_live
replace_codes-live m [] replaced h = refl
replace_codes-live m ((e, ttl) ∷ es) replaced h =
    OnOk-bind (λ r. expires r.0.payload ≡ expires e.payload) (λ r. all_live r.0 ≡ true) _ _
      (entry_replacement-expires m e e.payload replaced refl)
      λ r q.
        OnOk-bind (λ r. all_live r.0 ≡ true) (λ r. all_live r.0 ≡ true) _ _
          (replace_codes-live m es r.1 (ground arith))
          λ rs live. ground (arith, lives_same e r.0 ttl q)

OnOk-Unit {ℓ} : {A : Type ℓ} (o : Outcome A) → OnOk (λ _. Unit {0}) o
OnOk-Unit (ok a) = tt
OnOk-Unit (err e) = tt
OnOk-Unit panic = tt

store_state-Lives :
    (o : Outcome (List EntryWithLiveUntil × Bool)) (x : RetroshadesExecution)
    → Lives x
    → OnOk (λ r. all_live r.0 ≡ true) o
    → Lives (store_state o x).1
store_state-Lives (ok r) x h p = p
store_state-Lives (err e) x h p = h
store_state-Lives panic x h p = h

pub replace_binaries-Lives :
    (mercury : Binaries) (x : RetroshadesExecution) → Lives x → Lives (replace_binaries mercury x).1
unfolding replace_binaries
replace_binaries-Lives mercury x h =
    let st = x.target_pre_execution_state in
    store_state-Lives _ x h (
      OnOk-bind (λ _. Unit {0}) (λ r. all_live r.0 ≡ true) (binaries_mutation mercury st [])
        (λ m. replace_codes m st false) (OnOk-Unit _) (λ m _. replace_codes-live m st false h))
