-- ===== src/Contracts/Storage/Phases.antt =====
-- The calls of examples/storage/src/lib.rs against a machine of three phases.
use native.Mathlib.Decide.{ℕ_discrete}
use retroshade.Base.{ℕ, zero, suc, List, [], ◌∷◌, ◌++◌, none, some, ◌≡◌, refl, ap}
use retroshade.Base.Int.{ℤ, pos, ℤ-discrete}
use retroshade.Base.Dict.{lookup, insert, lookup-insert_self}
use retroshade.Xdr.Value.{ScAddress, ScVal, ScVal-eq}
use retroshade.Contracts.Env.{
  Env, Call, Sdk, get_as, get_as-none, get_as-some, bind-some, transact, transact-some,
  transact-none,
}
use retroshade.Contracts.Storage.{FirstRetroshade, value_key, test, put, emit_first, spend, t}

-- Nothing is stored; 1 is stored; 2 is stored.
pub data Phase : Type 0 where
  unset armed spent : Phase

pub data Invoke : Type 0 where
  put_call t_call : Invoke

-- The phase and the number of events so far.
abbrev pub Machine : Type 0
Machine = Phase × ℕ

unfoldable pub move : Invoke → Machine → Machine
move put_call (p, n) = (armed, n)
move t_call (unset, n) = (unset, n)
move t_call (armed, n) = (spent, suc n)
move t_call (spent, n) = (spent, n)

unfoldable pub move_all : List Invoke → Machine → Machine
move_all [] m = m
move_all (c ∷ cs) m = move_all cs (move c m)

abbrev pub repeated {ℓ} : {A : Type ℓ} → ℕ → A → List A
repeated zero a = []
repeated (suc n) a = a ∷ repeated n a

repeated-append {ℓ} : {A : Type ℓ} (n : ℕ) (a : A) → repeated n a ++ a ∷ [] ≡ repeated (suc n) a
repeated-append zero a = refl
repeated-append (suc n) a = ap (◌∷◌ a) (repeated-append n a)

module _ (sdk : Sdk) (into_val : FirstRetroshade → ScVal) where
  unfoldable pub call_of : Invoke → Call (Unit {0})
  call_of put_call = put sdk into_val
  call_of t_call = t sdk into_val

  unfoldable pub run_calls : List Invoke → Env → Env
  unfolding call_of
  run_calls [] env = env
  run_calls (c ∷ cs) env = run_calls cs (transact (call_of c) env)

  abbrev pub emission : ScAddress → ScVal × ScVal
  emission self = (test, into_val (record { test = self; amount = pos 2 }))

  abbrev pub StoredIn : Phase → Env → Type 0
  StoredIn unset env = lookup value_key env.storage ≡ none
  StoredIn armed env =
      (v : ScVal) × (lookup value_key env.storage ≡ some v) × (sdk.i128_from_val v ≡ some (pos 1))
  StoredIn spent env =
      (v : ScVal) × (lookup value_key env.storage ≡ some v) × (sdk.i128_from_val v ≡ some (pos 2))

  -- The storage is in the phase, and so many events have been emitted, all the same.
  pub record Shows (self : ScAddress) (env : Env) (m : Machine) : Type 0 where
    pub own : env.current_contract_address ≡ self
    pub phase : StoredIn m.0 env
    pub emissions : env.emitted ≡ repeated m.1 (emission self)

  -- The conversions are inverse at the two numbers that the contract stores.
  module _ (one : sdk.i128_from_val (sdk.i128_to_val (pos 1)) ≡ some (pos 1))
      (two : sdk.i128_from_val (sdk.i128_to_val (pos 2)) ≡ some (pos 2)) where
    put-run :
        (env : Env)
        → transact (put sdk into_val) env
          ≡ record env { storage = insert value_key (sdk.i128_to_val (pos 1)) env.storage }
    unfolding put
    put-run env = transact-some (put sdk into_val) env tt _ refl

    t-run :
        (env : Env) (v : ScVal) (z : ℤ)
        → lookup value_key env.storage ≡ some v
        → sdk.i128_from_val v ≡ some z
        → t sdk into_val env ≡ spend sdk into_val z env
    unfolding t
    t-run env v z l f =
        bind-some (get_as sdk.i128_from_val value_key) _ env env (some z)
          (get_as-some sdk.i128_from_val value_key env v z l f)

    t-unset : (env : Env) → lookup value_key env.storage ≡ none → t sdk into_val env ≡ none
    unfolding t
    t-unset env l =
        bind-some (get_as sdk.i128_from_val value_key) _ env env none
          (get_as-none sdk.i128_from_val value_key env l)

    t-armed :
        (env : Env)
        → StoredIn armed env
        → t sdk into_val env
          ≡ some (
            tt,
            record env {
              storage = insert value_key (sdk.i128_to_val (pos 2)) env.storage;
              emitted = env.emitted ++ emission env.current_contract_address ∷ [];
            },
          )
    unfolding spend emit_first ℤ-discrete ℕ_discrete
    t-armed env (v, l, f) = t-run env v (pos 1) l f

    t-spent : (env : Env) → StoredIn spent env → t sdk into_val env ≡ some (tt, env)
    unfolding spend ℤ-discrete ℕ_discrete
    t-spent env (v, l, f) = t-run env v (pos 2) l f

    call-Shows :
        (c : Invoke) (self : ScAddress) (env : Env) (m : Machine)
        → Shows self env m
        → Shows self (transact (call_of c) env) (move c m)
    unfolding call_of move
    call-Shows put_call self env (p, n) s = rw (put-run env) (record {
      own = s.own;
      phase = (sdk.i128_to_val (pos 1), lookup-insert_self value_key _ env.storage, one);
      emissions = s.emissions;
    })
    call-Shows t_call self env (unset, n) s =
        rw (transact-none (t sdk into_val) env (t-unset env s.phase)) s
    call-Shows t_call self env (armed, n) s =
        rw (transact-some (t sdk into_val) env tt _ (t-armed env s.phase)) (record {
          own = s.own;
          phase = (sdk.i128_to_val (pos 2), lookup-insert_self value_key _ env.storage, two);
          emissions = rw (s.emissions, s.own) (repeated-append n (emission self));
        })
    call-Shows t_call self env (spent, n) s =
        rw (transact-some (t sdk into_val) env tt env (t-spent env s.phase)) s

    -- If the conversions of the two stored numbers are inverse, and whatever calls are made, the
    -- contract does what the machine does: if its storage is in the machine's phase and its
    -- emissions are the machine's events, this is so after any list of transactions. In particular
    -- `t` changes nothing before the first `put`, and after a `put` only the next `t` emits.
    pub run_calls-Shows :
        (cs : List Invoke) (self : ScAddress) (env : Env) (m : Machine)
        → Shows self env m
        → Shows self (run_calls cs env) (move_all cs m)
    unfolding run_calls move_all
    run_calls-Shows [] self env m s = s
    run_calls-Shows (c ∷ cs) self env m s =
        run_calls-Shows cs self (transact (call_of c) env) (move c m) (call-Shows c self env m s)
