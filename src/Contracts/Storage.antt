-- ===== src/Contracts/Storage.antt =====
-- examples/storage/src/lib.rs.
pub mod Phases
pub mod Bound
use retroshade.Base.{Bool, true, false, [], ◌∷◌, if◌then◌else◌, Eq, eq_of_discrete, ◌==◌}
use retroshade.Base.Int.{ℤ, pos, ℤ-eq}
use retroshade.Xdr.Value.{ScAddress, ScVal}
use retroshade.Contracts.Env.{Call, ◌>>=◌, ◌>>◌, done, or_trap, set, zephyr_emit, Sdk, get_as}

pub record FirstRetroshade : Type 0 where
  pub test : ScAddress
  pub amount : ℤ

-- `&0`, an `i32`.
abbrev pub value_key : ScVal
value_key = ScVal.i32 (pos 0)

abbrev pub test : ScVal
test = ScVal.symbol (b't' ∷ b'e' ∷ b's' ∷ b't' ∷ [])

module _ (sdk : Sdk) (into_val : FirstRetroshade → ScVal) where
  unfoldable pub put : Call (Unit {0})
  put = set value_key (sdk.i128_to_val (pos 1))

  unfoldable pub emit_first : Call (Unit {0})
  emit_first env =
      zephyr_emit test (into_val (record { test = env.current_contract_address; amount = pos 2 }))
        env

  -- `if 1_i128 == value { … }`
  unfoldable pub spend : ℤ → Call (Unit {0})
  unfolding emit_first
  spend value =
      let body = emit_first >> set value_key (sdk.i128_to_val (pos 2)) in
      if pos 1 == value then body else done tt

  unfoldable pub t : Call (Unit {0})
  unfolding spend
  t = do stored ← get_as sdk.i128_from_val value_key; value ← or_trap stored; spend value
