-- ===== src/Contracts/Storage/Bound.antt =====
-- The number of events that the contract of examples/storage/src/lib.rs emits.
use retroshade.Base.{
  ℕ, zero, suc, ◌+◌, ◌≤◌, List, [], ◌∷◌, none, some, ◌≡◌, refl, ap, ◌∙◌, arith, length,
}
use retroshade.Base.Int.{pos}
use retroshade.Base.Dict.{lookup}
use retroshade.Xdr.Value.{ScVal, ScVal-eq}
use retroshade.Contracts.Env.{Env, Sdk}
use retroshade.Contracts.Storage.{FirstRetroshade, value_key}
use retroshade.Contracts.Storage.Phases.{
  Invoke, put_call, t_call, Machine, unset, armed, spent, move, move_all, repeated, run_calls,
  emission, run_calls-Shows,
}

abbrev pub count_puts : List Invoke → ℕ
count_puts [] = 0
count_puts (put_call ∷ cs) = suc (count_puts cs)
count_puts (t_call ∷ cs) = count_puts cs

-- An armed machine owes an event.
abbrev owed : Machine → ℕ
owed (unset, n) = n
owed (armed, n) = n + 1
owed (spent, n) = n

events-le-owed : (m : Machine) → m.1 ≤ owed m
events-le-owed (unset, n) = omega arith
events-le-owed (armed, n) = omega arith
events-le-owed (spent, n) = omega arith

owed-move_all : (cs : List Invoke) (m : Machine) → owed (move_all cs m) ≤ owed m + count_puts cs
unfolding move_all move
owed-move_all [] m = omega arith
owed-move_all (put_call ∷ cs) (unset, n) = omega (arith, owed-move_all cs (armed, n))
owed-move_all (put_call ∷ cs) (armed, n) = omega (arith, owed-move_all cs (armed, n))
owed-move_all (put_call ∷ cs) (spent, n) = omega (arith, owed-move_all cs (armed, n))
owed-move_all (t_call ∷ cs) (unset, n) = owed-move_all cs (unset, n)
owed-move_all (t_call ∷ cs) (armed, n) = omega (arith, owed-move_all cs (spent, suc n))
owed-move_all (t_call ∷ cs) (spent, n) = owed-move_all cs (spent, n)

length-repeated {ℓ} : {A : Type ℓ} (n : ℕ) (a : A) → length (repeated n a) ≡ n
length-repeated zero a = omega arith
length-repeated (suc n) a = omega (arith, length-repeated n a)

-- If the conversions of the two stored numbers are inverse: a contract that has stored and emitted
-- nothing emits at most one event for each `put`, whatever calls are made.
pub emitted-le-puts :
    (sdk : Sdk) (into_val : FirstRetroshade → ScVal)
    → sdk.i128_from_val (sdk.i128_to_val (pos 1)) ≡ some (pos 1)
    → sdk.i128_from_val (sdk.i128_to_val (pos 2)) ≡ some (pos 2)
    → (cs : List Invoke) (env : Env) → lookup value_key env.storage ≡ none
    → env.emitted ≡ []
    → length (run_calls sdk into_val cs env).emitted ≤ count_puts cs
emitted-le-puts sdk into_val one two cs env fresh quiet =
    let self = env.current_contract_address in
    let m = move_all cs (unset, 0) in
    let s =
      run_calls-Shows sdk into_val one two cs self env (unset, 0)
        (record { own = refl; phase = fresh; emissions = quiet }) in
    omega (
      arith,
      ap length s.emissions ∙ length-repeated m.1 (emission sdk into_val self),
      events-le-owed m,
      owed-move_all cs (unset, 0),
    )
