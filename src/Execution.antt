-- ===== src/Execution.antt =====
-- The types of retroshade/src/lib.rs: the execution object, its errors and its results. A call
-- that borrows `self` mutably returns the outcome and the object as it is left.
use retroshade.Base.{ℕ, Bool, List, [], Option, none, some, ◌≡◌, ◌⊎◌, refl, inl, inr}
use retroshade.Xdr.Value.{Opaque, Hash, AccountId, ScVal}
use retroshade.Xdr.Ledger.{LedgerEntry, LedgerKey}
use retroshade.Xdr.Transaction.{SorobanResources}

-- An entry with the ledger until which it lives; contract code and data have one.
abbrev pub EntryWithLiveUntil : Type 0
EntryWithLiveUntil = LedgerEntry × Option ℕ

pub record DiagnosticEvent : Type 0 where
  pub in_successful_contract_call : Bool
  pub event : Opaque

pub data RetroshadeError : Type 0 where
  svm_host : Opaque → RetroshadeError
  not_soroban_tx : RetroshadeError
  entry_not_found : LedgerKey → RetroshadeError
  missing_context : RetroshadeError
  malformed_xdr : RetroshadeError
  malformed_retroshade_event : RetroshadeError
  non_successful_contract_call : List DiagnosticEvent → RetroshadeError

-- `Result<A, RetroshadeError>`, or a panic.
pub data Outcome {ℓ} (A : Type ℓ) : Type ℓ where
  ok : A → Outcome A
  err : RetroshadeError → Outcome A
  panic : Outcome A

infixl 5 ◌>>=◌
abbrev pub ◌>>=◌ {ℓ κ} : {A : Type ℓ} {B : Type κ} → Outcome A → (A → Outcome B) → Outcome B
ok a >>= f = f a
err e >>= f = err e
panic >>= f = panic

-- The parts of a result.
pub >>=-eq-ok {ℓ κ} :
    {A : Type ℓ} {B : Type κ} (o : Outcome A) (f : A → Outcome B) {b : B}
    → (o >>= f) ≡ ok b
    → (a : A) × (o ≡ ok a) × (f a ≡ ok b)
>>=-eq-ok (ok a) f h = (a, refl, h)
>>=-eq-ok (err e) f h = cc
>>=-eq-ok panic f h = cc

-- `Result<A, HostError>`.
pub data HostResult {ℓ} (A : Type ℓ) : Type ℓ where
  ok : A → HostResult A
  err : Opaque → HostResult A

pub HostResult-cases {ℓ} :
    {A : Type ℓ} (r : HostResult A)
    → ((a : A) × (r ≡ HostResult.ok a)) ⊎ ((e : Opaque) × (r ≡ HostResult.err e))
HostResult-cases (HostResult.ok a) = inl (a, refl)
HostResult-cases (HostResult.err e) = inr (e, refl)

-- The trait of the host: what an implementor provides.
abbrev pub SnapshotSource : Type 0
SnapshotSource = LedgerKey → HostResult (Option EntryWithLiveUntil)

pub record RetroshadesExecution : Type 0 where
  pub target_pre_execution_state : List EntryWithLiveUntil
  pub force_remove : List LedgerEntry
  pub host_function : Option Opaque
  pub auth_entries : List Opaque
  pub resources : Option SorobanResources
  pub source_account : Option AccountId
  pub ledger_info : Opaque

unfoldable pub new : Opaque → RetroshadesExecution
new ledger_info = record {
  target_pre_execution_state = [];
  force_remove = [];
  host_function = none;
  auth_entries = [];
  resources = none;
  source_account = none;
  ledger_info = ledger_info;
}

abbrev pub Step {ℓ} : Type ℓ → Type ℓ
Step A = Outcome A × RetroshadesExecution

-- `f(self)?; g(self)`: an error ends the caller, and leaves what was written.
abbrev pub and_then {ℓ κ} :
    {A : Type ℓ} {B : Type κ} → Step A → (A → RetroshadesExecution → Step B) → Step B
and_then (ok a, x) f = f a x
and_then (err e, x) f = (err e, x)
and_then (panic, x) f = (panic, x)

pub record RetroshadeExport : Type 0 where
  pub contract_id : Hash
  pub target : ScVal
  pub event_object : ScVal

pub record RetroshadeExecutionResult : Type 0 where
  pub retroshades : List RetroshadeExport
  pub diagnostic : List DiagnosticEvent

-- `Option::unwrap`.
abbrev pub unwrap {ℓ} : {A : Type ℓ} → Option A → Outcome A
unwrap none = panic
unwrap (some a) = ok a
