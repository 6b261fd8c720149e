-- ===== src/Tests/Contracts.antt =====
-- The contracts of examples in small runs.
use retroshade.Base.{
  ℕ, ◌^◌, ◌-◌, ◌++◌, false, List, [], ◌∷◌, Option, none, some, ◌≡◌, refl, ap, sym, inl, length, ◌≤◌,
}
use retroshade.Base.Int.{ℤ, pos, negsuc}
use retroshade.Base.Dict.{lookup}
use retroshade.Xdr.Value.{Hash, ScAddress, ScVal, ScVal-eq}
use retroshade.Contracts.Env.{Env, Sdk, done, zephyr_emit}
use retroshade.Contracts.Deposit.{DepositEvent}
use retroshade.Contracts.Deposit.Pool.{
  Pool, Request, accept_all, submit_all, Shows, submit_all-Shows,
}
use retroshade.Contracts.Deposit.Chain.{Chained, submit_all-Chained}
use retroshade.Contracts.Storage.{FirstRetroshade}
use retroshade.Contracts.Storage.Phases.{
  Invoke, put_call, t_call, unset, move_all, run_calls, run_calls-Shows,
}
use retroshade.Contracts.Storage.Phases
use retroshade.Contracts.Storage.Bound.{count_puts, emitted-le-puts}
use retroshade.Contracts.Factory.{PoolArgs, Deployer, init_factory, initialize}
use retroshade.Contracts.Factory.Register.{
  IsIsolated, init_call, initialize_call, first_hash, deploy_from, init_from, initialize-first_hash,
  init_factory-first_hash,
}
use retroshade.Contracts.Factory.Register
use retroshade.Contracts.Hello
use retroshade.Contracts.Hello.{test1, t}
use retroshade.Contracts.Hello.Row.{event_value, columns, Converts, t-row}
use retroshade.Conversion.Value.{address_text}
use retroshade.Execution.{ok}
use retroshade.Export.{retroshade_prepare_for_db, first_failed}
use retroshade.Tests.Columns.{plain, plain_laws}
use retroshade.Tests.Data.{this_contract}

abbrev i128_of : ScVal → Option ℤ
i128_of (ScVal.i64 z) = some z
i128_of _ = none

abbrev hash_of : ScVal → Option Hash
hash_of (ScVal.bytes h) = some h
hash_of _ = none

abbrev plain_sdk : Sdk
plain_sdk = record {
  i128_to_val = λ z. ScVal.i64 z;
  i128_from_val = i128_of;
  hash_to_val = λ h. ScVal.bytes h;
  hash_from_val = hash_of;
}

abbrev fresh : Env
fresh = record {
  storage = [];
  emitted = [];
  current_contract_address = this_contract;
  sequence = 1;
  timestamp = 2;
}

abbrev total_of : DepositEvent → ScVal
total_of e = ScVal.i64 e.now_tvl

abbrev request : ℤ → Request
request amount = record { from = this_contract; amount = amount; sequence = 4; timestamp = 5 }

-- The second deposit would take the total out of the range.
abbrev requests : List Request
requests = request (pos 5) ∷ request (pos (2 ^ 127 - 1)) ∷ request (negsuc 2) ∷ []

abbrev empty_pool : Pool
empty_pool = record { total = pos 0; events = [] }

submit_all-Shows_example :
    Shows plain_sdk total_of
      (submit_all plain_sdk total_of requests fresh)
      (accept_all requests empty_pool)
unfolding lookup
submit_all-Shows_example =
    submit_all-Shows plain_sdk total_of (λ z _. refl) requests fresh empty_pool
      (record { stored = inl (refl, refl); emissions = refl })

submit_all-Chained_example :
    (p : Pool) × Shows plain_sdk total_of (submit_all plain_sdk total_of requests fresh) p
    × Chained (pos 0) p.events p.total
unfolding lookup
submit_all-Chained_example =
    submit_all-Chained plain_sdk total_of (λ z _. refl) requests fresh refl refl

abbrev amount_of : FirstRetroshade → ScVal
amount_of e = ScVal.i64 e.amount

abbrev calls : List Invoke
calls = t_call ∷ put_call ∷ t_call ∷ t_call ∷ put_call ∷ []

run_calls-Shows_example :
    Phases.Shows plain_sdk amount_of this_contract
      (run_calls plain_sdk amount_of calls fresh)
      (move_all calls (unset, 0))
unfolding lookup
run_calls-Shows_example =
    run_calls-Shows plain_sdk amount_of refl refl calls this_contract fresh (unset, 0)
      (record { own = refl; phase = refl; emissions = refl })

emitted-le-puts_example :
    length (run_calls plain_sdk amount_of calls fresh).emitted ≤ count_puts calls
unfolding lookup
emitted-le-puts_example = emitted-le-puts plain_sdk amount_of refl refl calls fresh refl refl

-- A host that gives every pool the address of its salt.
abbrev deployer : Deployer
deployer = record {
  sdk = plain_sdk;
  pool_hash_key = ScVal.symbol (b'P' ∷ []);
  deploy = λ _ salt. done (ScAddress.contract salt);
  args_into_val = λ args. ScVal.string args.symbol ∷ [];
  invoke_contract = λ _ _ _. done ScVal.void;
  emit = λ e. zephyr_emit ScVal.void (ScVal.address e.pools);
}

deployer-IsIsolated : IsIsolated deployer
deployer-IsIsolated = record {
  deploy = λ p salt a env env' h. let same : env ≡ env' = cc in ap (λ x. x.storage) (sym same);
  invoke_contract =
      λ a f vs v env env' h. let same : env ≡ env' = cc in ap (λ x. x.storage) (sym same);
  emit = λ e u env env' h.
      let same : record env { emitted = env.emitted ++ (ScVal.void, ScVal.address e.pools) ∷ [] }
          ≡ env' =
        cc in
      ap (λ x. x.storage) (sym same);
}

abbrev pool_args : PoolArgs
pool_args = record {
  admin = this_contract;
  token = this_contract;
  oracle = this_contract;
  symbol = b'X' ∷ [];
  external_asset = false;
  oracle_asset = none;
  periods_in_days = pos 1;
  volatility = pos 2;
  multiplier = pos 3;
}

abbrev factory_calls : List Register.Invoke
factory_calls =
    initialize_call (1 ∷ []) pool_args
    ∷ init_call (5 ∷ [])
    ∷ init_call (6 ∷ [])
    ∷ initialize_call (2 ∷ []) pool_args
    ∷ []

initialize-first_hash_example :
    initialize deployer (3 ∷ []) pool_args (Register.submit_all deployer factory_calls fresh)
    ≡ deploy_from deployer
        (3 ∷ [])
        pool_args
        (first_hash factory_calls)
        (Register.submit_all deployer factory_calls fresh)
unfolding lookup
initialize-first_hash_example =
    initialize-first_hash deployer deployer-IsIsolated (λ p. refl) factory_calls fresh (3 ∷ [])
      pool_args refl

init_factory-first_hash_example :
    init_factory deployer (7 ∷ []) (Register.submit_all deployer factory_calls fresh)
    ≡ init_from deployer
        (7 ∷ [])
        (first_hash factory_calls)
        (Register.submit_all deployer factory_calls fresh)
unfolding lookup
init_factory-first_hash_example =
    init_factory-first_hash deployer deployer-IsIsolated (λ p. refl) factory_calls fresh (7 ∷ [])
      refl

abbrev size_of : ℤ → ℕ
size_of (pos n) = n
size_of (negsuc n) = 0

abbrev hello_value : Hello.FirstRetroshade → ScVal
hello_value e = event_value e.test (size_of e.amount) e.somev

hello_value-Converts : Converts hello_value
hello_value-Converts e n h small = ap (λ z. event_value e.test (size_of z) e.somev) h

t-row_example :
    (event : ScVal) × (b : ℤ) × (t hello_value fresh
      ≡ some (tt, record fresh { emitted = (test1, event) ∷ [] }))
    × (b ≡ pos 990)
    × (retroshade_prepare_for_db plain (record {
      retroshades = record { contract_id = 7 ∷ []; target = test1; event_object = event } ∷ [];
      diagnostic = [];
    })
        ≡ ok (record {
          retroshades =
              record {
                contract_id = plain.strkey_contract (7 ∷ []);
                target = plain.symbol_text (b't' ∷ b'e' ∷ b's' ∷ b't' ∷ b'1' ∷ []);
                event = columns plain (plain.bigint_text b) (address_text plain this_contract);
              }
              ∷ [];
          diagnostic = [];
        }))
unfolding first_failed
t-row_example = t-row plain plain_laws hello_value fresh (7 ∷ []) [] hello_value-Converts refl
