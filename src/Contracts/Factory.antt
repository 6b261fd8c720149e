-- ===== src/Contracts/Factory.antt =====
-- examples/soroban-insurance-factory/src/lib.rs, with the feature `mercury`. The deployer, the call
-- of the new pool and the derived `emit` are parameters.
pub mod Register
use retroshade.Base.{ℕ, Bool, true, false, List, [], ◌∷◌, Option, none, some, if◌then◌else◌}
use retroshade.Base.Int.{ℤ}
use retroshade.Base.Dict.{lookup}
use retroshade.Xdr.Value.{Bytes, Hash, ScAddress, ScVal, ScVal-eq}
use retroshade.Contracts.Env.{Call, ◌>>=◌, ◌>>◌, done, or_trap, set, Sdk, get_as}

pub data Error : Type 0 where
  already_initialized not_initialized not_admin pool_exists no_pool : Error

-- `Result<A, Error>`.
pub data Reply {ℓ} (A : Type ℓ) : Type ℓ where
  accepted : A → Reply A
  refused : Error → Reply A

pub record LiquidityPools : Type 0 where
  pub pools : ScAddress

-- The arguments of `initialize` after the salt, with the administrator before it.
pub record PoolArgs : Type 0 where
  pub admin : ScAddress
  pub token : ScAddress
  pub oracle : ScAddress
  pub symbol : Bytes
  pub external_asset : Bool
  pub oracle_asset : Option ScAddress
  pub periods_in_days : ℤ
  pub volatility : ℤ
  pub multiplier : ℤ

-- What the factory uses of the host, of the derives of soroban-sdk, and of retroshade-sdk.
pub record Deployer : Type 0 where
  pub sdk : Sdk
  -- `DataKey::PoolHash` as a value.
  pub pool_hash_key : ScVal
  -- `deployer().with_current_contract(salt).deploy(pool_hash)`
  pub deploy : Hash → Hash → Call ScAddress
  pub args_into_val : PoolArgs → List ScVal
  pub invoke_contract : ScAddress → Bytes → List ScVal → Call ScVal
  pub emit : LiquidityPools → Call (Unit {0})

-- "initialize"
abbrev pub initialize_symbol : Bytes
initialize_symbol = b'i' ∷ b'n' ∷ b'i' ∷ b't' ∷ b'i' ∷ b'a' ∷ b'l' ∷ b'i' ∷ b'z' ∷ b'e' ∷ []

module _ (d : Deployer) where
  unfoldable pub set_pool_hash : Hash → Call (Unit {0})
  set_pool_hash pool_hash = set d.pool_hash_key (d.sdk.hash_to_val pool_hash)

  unfoldable pub get_pool_hash : Call Hash
  get_pool_hash = do stored ← get_as d.sdk.hash_from_val d.pool_hash_key; or_trap stored

  abbrev is_some {ℓ} : {A : Type ℓ} → Option A → Bool
  is_some none = false
  is_some (some _) = true

  unfoldable pub has_pool_hash : Call Bool
  has_pool_hash env = some (is_some (lookup d.pool_hash_key env.storage), env)

  abbrev refuse_or_set : Bool → Hash → Call (Reply (Unit {0}))
  refuse_or_set true pool_hash = done (Reply.refused already_initialized)
  refuse_or_set false pool_hash = do set_pool_hash pool_hash; done (Reply.accepted tt)

  unfoldable pub init_factory : Hash → Call (Reply (Unit {0}))
  unfolding has_pool_hash set_pool_hash
  init_factory pool_hash = do initialized ← has_pool_hash; refuse_or_set initialized pool_hash

  -- The deployment of a pool, once the hash is known.
  unfoldable pub deploy_pool : Hash → PoolArgs → Hash → Call (Reply ScAddress)
  deploy_pool salt args pool_hash = do
    pool_address ← d.deploy pool_hash salt
    d.invoke_contract pool_address initialize_symbol (d.args_into_val args)
    d.emit (record { pools = pool_address })
    done (Reply.accepted pool_address)

  unfoldable pub initialize : Hash → PoolArgs → Call (Reply ScAddress)
  unfolding get_pool_hash deploy_pool
  initialize salt args = do pool_hash ← get_pool_hash; deploy_pool salt args pool_hash
