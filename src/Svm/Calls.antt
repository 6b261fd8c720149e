-- ===== src/Svm/Calls.antt =====
-- The types of retroshade/src/internal.rs, and what it uses of the host, the XDR codec and SHA-256:
-- the parameter `Host`.
use retroshade.Base.{ℕ, Bool, List, [], ◌∷◌, Option}
use retroshade.Xdr.Value.{Bytes, Opaque, Hash, AccountId, ScVal}
use retroshade.Xdr.Ledger.{LedgerEntry, LedgerKey, TtlEntry, ContractDataDurability}
use retroshade.Xdr.Transaction.{SorobanResources}
use retroshade.Execution.{
  DiagnosticEvent, Outcome, ok, ◌>>=◌, HostResult, SnapshotSource, RetroshadeExport,
}

-- `LedgerEntryLiveUntilChange` of the host.
pub record LedgerEntryLiveUntilChange : Type 0 where
  pub entry_type : Opaque
  pub key_hash : Bytes
  pub durability : ContractDataDurability
  pub old_live_until_ledger : ℕ
  pub new_live_until_ledger : ℕ

-- `LedgerEntryChange` of the host.
pub record EncodedChange : Type 0 where
  pub read_only : Bool
  pub encoded_key : Bytes
  pub encoded_new_value : Option Bytes
  pub old_entry_size_bytes_for_rent : ℕ
  pub ttl_change : Option LedgerEntryLiveUntilChange

pub record LedgerEntryChangeHelper : Type 0 where
  pub read_only : Bool
  pub key : LedgerKey
  pub old_entry_size_bytes : ℕ
  pub new_value : Option LedgerEntry
  pub ttl_change : Option LedgerEntryLiveUntilChange

-- The arguments of `invoke_host_function`; the list of restored entries is always empty.
pub record Invocation : Type 0 where
  pub enable_diagnostics : Bool
  pub encoded_host_fn : Bytes
  pub encoded_resources : Bytes
  pub encoded_source_account : Bytes
  pub encoded_auth_entries : List Bytes
  pub ledger_info : Opaque
  pub encoded_ledger_entries : List Bytes
  pub encoded_ttl_entries : List Bytes
  pub prng_seed : Bytes

pub record InvokeHostFunctionResult : Type 0 where
  pub encoded_invoke_result : HostResult Bytes
  pub ledger_changes : List EncodedChange
  pub encoded_contract_events : List Bytes
  pub retroshades : List RetroshadeExport

-- The arguments of `invoke_host_function_in_recording_mode`.
pub record Recording : Type 0 where
  pub enable_diagnostics : Bool
  pub host_fn : Opaque
  pub source_account : AccountId
  pub ledger_info : Opaque
  pub ledger_snapshot : SnapshotSource
  pub prng_seed : Bytes

pub record RecordingResult : Type 0 where
  pub invoke_result : HostResult ScVal
  pub ledger_changes : List EncodedChange
  pub contract_events : List Opaque
  pub retroshades : List RetroshadeExport

-- A call of the host also fills the list of diagnostic events. Writing and reading XDR may fail.
pub record Host : Type 0 where
  pub host_function_to_xdr : Opaque → Option Bytes
  pub resources_to_xdr : SorobanResources → Option Bytes
  pub account_to_xdr : AccountId → Option Bytes
  pub auth_to_xdr : Opaque → Option Bytes
  pub entry_to_xdr : LedgerEntry → Option Bytes
  pub key_to_xdr : LedgerKey → Option Bytes
  pub ttl_to_xdr : TtlEntry → Option Bytes
  pub key_from_xdr : Bytes → Option LedgerKey
  pub entry_from_xdr : Bytes → Option LedgerEntry
  pub value_from_xdr : Bytes → Option ScVal
  pub event_from_xdr : Bytes → Option Opaque
  pub sha256 : Bytes → Hash
  -- `discriminant` of a key, in XDR.
  pub discriminant : LedgerKey → Opaque
  pub ledger_entry_to_ledger_key : LedgerEntry → HostResult LedgerKey
  pub reset_unlimited : HostResult (Unit {0})
  pub invoke_host_function : Invocation → HostResult InvokeHostFunctionResult × List DiagnosticEvent
  pub invoke_host_function_in_recording_mode :
      Recording → HostResult RecordingResult × List DiagnosticEvent

-- Without its field `budget`, which nothing reads.
pub record InvokeHostFunctionHelperResult : Type 0 where
  pub invoke_result : HostResult ScVal
  pub ledger_changes : List LedgerEntryChangeHelper
  pub contract_events : List Opaque
  pub diagnostic_events : List DiagnosticEvent
  pub retroshades : List RetroshadeExport

-- `iter().map(…).collect()` with a closure that may panic.
unfoldable pub map_all {ℓ κ} :
    {A : Type ℓ} {B : Type κ} → (A → Outcome B) → List A → Outcome (List B)
map_all f [] = ok []
map_all f (x ∷ xs) = do y ← f x; ys ← map_all f xs; ok (y ∷ ys)
