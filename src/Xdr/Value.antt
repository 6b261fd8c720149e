-- ===== src/Xdr/Value.antt =====
-- `ScVal`, the values of contracts (matched in retroshade/src/conversion.rs and state.rs).
use native.Mathlib.Decide.{ℕ_discrete}
use retroshade.Base.{ℕ, Bool, List, Eq, eq_of_discrete}
use retroshade.Base.Int.{ℤ}

abbrev pub Bytes : Type 0
Bytes = List ℕ

-- The XDR bytes of a value that the source does not look into.
abbrev pub Opaque : Type 0
Opaque = Bytes

-- `Hash` and `Uint256`: 32 bytes.
abbrev pub Hash : Type 0
Hash = Bytes

-- `AccountId(PublicKey::PublicKeyTypeEd25519(…))`, the only kind of public key.
pub record AccountId : Type 0 where
  pub ed25519 : Hash

pub record MuxedEd25519Account : Type 0 where
  pub id : ℕ
  pub ed25519 : Hash

pub data MuxedAccount : Type 0 where
  ed25519 : Hash → MuxedAccount
  muxed_ed25519 : MuxedEd25519Account → MuxedAccount

pub data ScAddress : Type 0 where
  account : AccountId → ScAddress
  contract : Hash → ScAddress
  muxed_account : MuxedEd25519Account → ScAddress
  claimable_balance : Hash → ScAddress
  liquidity_pool : Hash → ScAddress

pub data ContractExecutable : Type 0 where
  wasm : Hash → ContractExecutable
  stellar_asset : ContractExecutable

pub record UInt128Parts : Type 0 where
  pub hi : ℕ
  pub lo : ℕ

pub record Int128Parts : Type 0 where
  pub hi : ℤ
  pub lo : ℕ

pub record UInt256Parts : Type 0 where
  pub hi_hi : ℕ
  pub hi_lo : ℕ
  pub lo_hi : ℕ
  pub lo_lo : ℕ

pub record Int256Parts : Type 0 where
  pub hi_hi : ℤ
  pub hi_lo : ℕ
  pub lo_hi : ℕ
  pub lo_lo : ℕ

-- A constructor for each variant that the source names, and `other` for those that it does not.
-- `OptVals` is `Option<ScVec>` and `OptMap` is `Option<ScMap>`.
mutual
  pub data ScVal : Type 0 where
    bool : Bool → ScVal
    void : ScVal
    error : Opaque → ScVal
    u32 : ℕ → ScVal
    i32 : ℤ → ScVal
    u64 : ℕ → ScVal
    i64 : ℤ → ScVal
    timepoint : ℕ → ScVal
    duration : ℕ → ScVal
    u128 : UInt128Parts → ScVal
    i128 : Int128Parts → ScVal
    u256 : UInt256Parts → ScVal
    i256 : Int256Parts → ScVal
    bytes : Bytes → ScVal
    string : Bytes → ScVal
    symbol : Bytes → ScVal
    vec : OptVals → ScVal
    map : OptMap → ScVal
    address : ScAddress → ScVal
    contract_instance : ContractExecutable → OptMap → ScVal
    ledger_key_contract_instance : ScVal
    other : Opaque → ScVal

  pub data OptVals : Type 0 where
    no_vec : OptVals
    some_vec : ScVals → OptVals

  pub data ScVals : Type 0 where
    nil : ScVals
    cons : ScVal → ScVals → ScVals

  pub data OptMap : Type 0 where
    no_map : OptMap
    some_map : ScMap → OptMap

  pub data ScMap : Type 0 where
    end : ScMap
    entry : ScVal → ScVal → ScMap → ScMap

unfoldable pub Bytes-discrete : Discrete Bytes
Bytes-discrete = hlevel ℕ_discrete

unfoldable pub AccountId-discrete : Discrete AccountId
AccountId-discrete = hlevel Bytes-discrete

unfoldable pub ScAddress-discrete : Discrete ScAddress
ScAddress-discrete = hlevel (ℕ_discrete, Bytes-discrete)

unfoldable pub ScVal-discrete : Discrete ScVal
ScVal-discrete = hlevel ℕ_discrete

instance abbrev pub Bytes-eq : Eq Bytes
Bytes-eq = eq_of_discrete Bytes-discrete

instance abbrev pub AccountId-eq : Eq AccountId
AccountId-eq = eq_of_discrete AccountId-discrete

instance abbrev pub ScAddress-eq : Eq ScAddress
ScAddress-eq = eq_of_discrete ScAddress-discrete

instance abbrev pub ScVal-eq : Eq ScVal
ScVal-eq = eq_of_discrete ScVal-discrete
