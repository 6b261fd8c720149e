-- ===== src/Contracts/Deposit.antt =====
-- examples/deposit/src/lib.rs, with the feature `mercury`.
pub mod Pool
pub mod Chain
use retroshade.Base.{ℕ, [], ◌∷◌, Option, none, some}
use retroshade.Base.Int.{ℤ, pos}
use retroshade.Xdr.Value.{ScAddress, ScVal}
use retroshade.Contracts.Env.{
  Env, Call, ◌>>=◌, ◌>>◌, or_trap, set, zephyr_emit, Sdk, get_as, checked_add,
}

pub record DepositEvent : Type 0 where
  pub previous_tvl : ℤ
  pub now_tvl : ℤ
  pub from : ScAddress
  pub amount : ℤ
  pub ledger : ℕ
  pub timestamp : ℕ

-- `&0`, an `i32`.
abbrev pub tvl_key : ScVal
tvl_key = ScVal.i32 (pos 0)

abbrev pub mydeposit : ScVal
mydeposit = ScVal.symbol (b'm' ∷ b'y' ∷ b'd' ∷ b'e' ∷ b'p' ∷ b'o' ∷ b's' ∷ b'i' ∷ b't' ∷ [])

abbrev pub unwrap_or {ℓ} : {A : Type ℓ} → Option A → A → A
unwrap_or none d = d
unwrap_or (some a) d = a

module _ (sdk : Sdk) (into_val : DepositEvent → ScVal) where
  unfoldable pub emit_deposit : ScAddress → ℤ → ℤ → Call (Unit {0})
  unfolding checked_add
  emit_deposit from amount previous_tvl env =
      (do
        now_tvl ← or_trap (checked_add previous_tvl amount)
        zephyr_emit mydeposit (
            into_val (record {
              from = from;
              amount = amount;
              previous_tvl = previous_tvl;
              now_tvl = now_tvl;
              ledger = env.sequence;
              timestamp = env.timestamp;
            })))
        env

  -- What `deposit` does with the total that it has read.
  unfoldable pub store_deposit : ScAddress → ℤ → ℤ → Call (Unit {0})
  unfolding emit_deposit
  store_deposit from amount current_tvl = do
    sum ← or_trap (checked_add current_tvl amount)
    set tvl_key (sdk.i128_to_val sum)
    emit_deposit from amount current_tvl

  unfoldable pub deposit : ScAddress → ℤ → Call (Unit {0})
  unfolding store_deposit
  deposit from amount = do
    stored ← get_as sdk.i128_from_val tvl_key
    store_deposit from amount (unwrap_or stored (pos 0))
