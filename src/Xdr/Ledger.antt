-- ===== src/Xdr/Ledger.antt =====
-- Ledger entries, their keys, and the changes that a transaction's meta records.
use retroshade.Base.{ℕ, Eq, eq_of_discrete}
use retroshade.Xdr.Value.{Bytes, Opaque, Hash, AccountId, ScAddress, ScVal}
use retroshade.Xdr.Value.{Bytes-discrete, AccountId-discrete, ScAddress-discrete, ScVal-discrete}

pub data ContractDataDurability : Type 0 where
  temporary persistent : ContractDataDurability

pub record AccountEntry : Type 0 where
  pub account_id : AccountId
  pub rest : Opaque

pub record TrustLineEntry : Type 0 where
  pub account_id : AccountId
  pub asset : Opaque
  pub rest : Opaque

pub record ContractDataEntry : Type 0 where
  pub contract : ScAddress
  pub key : ScVal
  pub durability : ContractDataDurability
  pub val : ScVal

pub record ContractCodeEntry : Type 0 where
  pub ext : Opaque
  pub hash : Hash
  pub code : Bytes

pub record TtlEntry : Type 0 where
  pub key_hash : Bytes
  pub live_until_ledger_seq : ℕ

pub data LedgerEntryData : Type 0 where
  account : AccountEntry → LedgerEntryData
  trustline : TrustLineEntry → LedgerEntryData
  contract_data : ContractDataEntry → LedgerEntryData
  contract_code : ContractCodeEntry → LedgerEntryData
  ttl : TtlEntry → LedgerEntryData
  other : Opaque → LedgerEntryData

-- The field `data` of the source is `payload` here.
pub record LedgerEntry : Type 0 where
  pub last_modified_ledger_seq : ℕ
  pub payload : LedgerEntryData
  pub ext : Opaque

pub record LedgerKeyAccount : Type 0 where
  pub account_id : AccountId

pub record LedgerKeyTrustLine : Type 0 where
  pub account_id : AccountId
  pub asset : Opaque

pub record LedgerKeyContractData : Type 0 where
  pub contract : ScAddress
  pub key : ScVal
  pub durability : ContractDataDurability

pub record LedgerKeyContractCode : Type 0 where
  pub hash : Hash

pub data LedgerKey : Type 0 where
  account : LedgerKeyAccount → LedgerKey
  trustline : LedgerKeyTrustLine → LedgerKey
  contract_data : LedgerKeyContractData → LedgerKey
  contract_code : LedgerKeyContractCode → LedgerKey
  other : Opaque → LedgerKey

pub data LedgerEntryChange : Type 0 where
  state : LedgerEntry → LedgerEntryChange
  created : LedgerEntry → LedgerEntryChange
  updated : LedgerEntry → LedgerEntryChange
  removed : LedgerKey → LedgerEntryChange
  restored : LedgerEntry → LedgerEntryChange

unfoldable pub LedgerKey-discrete : Discrete LedgerKey
LedgerKey-discrete = hlevel (Bytes-discrete, AccountId-discrete, ScAddress-discrete, ScVal-discrete)

instance abbrev pub LedgerKey-eq : Eq LedgerKey
LedgerKey-eq = eq_of_discrete LedgerKey-discrete
