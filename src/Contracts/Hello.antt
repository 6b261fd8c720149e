-- ===== src/Contracts/Hello.antt =====
-- examples/hello_world/src/lib.rs, with the feature `retroshade`.
pub mod Row
use retroshade.Base.{[], ◌∷◌, List}
use retroshade.Base.Int.{ℤ, pos}
use retroshade.Xdr.Value.{ScAddress, ScVal}
use retroshade.Contracts.Env.{Call, zephyr_emit}

pub record FirstRetroshade : Type 0 where
  pub test : ScAddress
  pub amount : ℤ
  pub somev : List ScAddress

abbrev pub test1 : ScVal
test1 = ScVal.symbol (b't' ∷ b'e' ∷ b's' ∷ b't' ∷ b'1' ∷ [])

module _ (into_val : FirstRetroshade → ScVal) where
  unfoldable pub t : Call (Unit {0})
  t env =
      zephyr_emit test1
        (into_val (record {
          test = env.current_contract_address;
          amount = pos 990;
          somev = env.current_contract_address ∷ [];
        }))
        env
