-- ===== src/Xdr/Transaction.antt =====
-- The transaction envelope and its meta.
use retroshade.Base.{List, Option}
use retroshade.Xdr.Value.{Opaque, MuxedAccount}
use retroshade.Xdr.Ledger.{LedgerKey, LedgerEntryChange}

pub record LedgerFootprint : Type 0 where
  pub read_only : List LedgerKey
  pub read_write : List LedgerKey

pub record SorobanResources : Type 0 where
  pub footprint : LedgerFootprint
  pub rest : Opaque

pub record SorobanTransactionData : Type 0 where
  pub resources : SorobanResources
  pub rest : Opaque

pub data TransactionExt : Type 0 where
  v0 : TransactionExt
  v1 : SorobanTransactionData → TransactionExt

-- `HostFunction` and `SorobanAuthorizationEntry` are only passed on.
pub record InvokeHostFunctionOp : Type 0 where
  pub host_function : Opaque
  pub auth : List Opaque

pub data OperationBody : Type 0 where
  invoke_host_function : InvokeHostFunctionOp → OperationBody
  other : Opaque → OperationBody

pub record Operation : Type 0 where
  pub source_account : Option MuxedAccount
  pub body : OperationBody

pub record Transaction : Type 0 where
  pub source_account : MuxedAccount
  pub ext : TransactionExt
  pub operations : List Operation

pub record TransactionV1Envelope : Type 0 where
  pub tx : Transaction

pub record OperationMeta : Type 0 where
  pub changes : List LedgerEntryChange

pub record OperationMetaV2 : Type 0 where
  pub changes : List LedgerEntryChange

pub record TransactionMetaV3 : Type 0 where
  pub operations : List OperationMeta

pub record TransactionMetaV4 : Type 0 where
  pub operations : List OperationMetaV2

-- `other` stands for the versions before 3.
pub data TransactionMeta : Type 0 where
  v3 : TransactionMetaV3 → TransactionMeta
  v4 : TransactionMetaV4 → TransactionMeta
  other : Opaque → TransactionMeta
