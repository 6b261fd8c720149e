-- ===== src/Contracts/Deposit/Pool.antt =====
-- The deposits of examples/deposit/src/lib.rs against a pool that only adds.
use mathlib.Core.List.{map-append}
use retroshade.Base.{
  ℕ, true, List, [], ◌∷◌, ◌++◌, map, Option, none, some, if◌then◌else◌, ◌≡◌, ◌⊎◌, refl, ap, sym,
  ◌∙◌, inl, inr, Bool-cases,
}
use retroshade.Base.Int.{ℤ, pos, ◌+ℤ◌, is_i128}
use retroshade.Base.Dict.{lookup, insert, lookup-insert_self}
use retroshade.Xdr.Value.{ScAddress, ScVal, ScVal-eq}
use retroshade.Contracts.Env.{
  Env, Sdk, get_as, get_as-none, get_as-some, bind-some, checked_add-some, checked_add-none,
  transact, transact-some, transact-none,
}
use retroshade.Contracts.Deposit.{
  DepositEvent, tvl_key, mydeposit, unwrap_or, emit_deposit, store_deposit, deposit,
}

pub record Pool : Type 0 where
  pub total : ℤ
  pub events : List DepositEvent

-- A transaction that deposits, in a ledger.
pub record Request : Type 0 where
  pub from : ScAddress
  pub amount : ℤ
  pub sequence : ℕ
  pub timestamp : ℕ

abbrev pub event_of : Request → ℤ → DepositEvent
event_of r total = record {
  previous_tvl = total;
  now_tvl = total +ℤ r.amount;
  from = r.from;
  amount = r.amount;
  ledger = r.sequence;
  timestamp = r.timestamp;
}

-- The pool takes a deposit that keeps the total an `i128`, and records it; it ignores any other.
unfoldable pub accept : Request → Pool → Pool
accept r p =
    if is_i128 (p.total +ℤ r.amount)
    then record { total = p.total +ℤ r.amount; events = p.events ++ event_of r p.total ∷ [] }
    else p

unfoldable pub accept_all : List Request → Pool → Pool
accept_all [] p = p
accept_all (r ∷ rs) p = accept_all rs (accept r p)

abbrev at_ledger : Request → Env → Env
at_ledger r env = record env { sequence = r.sequence; timestamp = r.timestamp }

module _ (sdk : Sdk) (into_val : DepositEvent → ScVal) where
  unfoldable pub submit : Request → Env → Env
  submit r env = transact (deposit sdk into_val r.from r.amount) (at_ledger r env)

  unfoldable pub submit_all : List Request → Env → Env
  submit_all [] env = env
  submit_all (r ∷ rs) env = submit_all rs (submit r env)

  abbrev pub emission : DepositEvent → ScVal × ScVal
  emission e = (mydeposit, into_val e)

  -- The storage holds the total, or nothing for zero, and the emissions are the pool's events.
  pub record Shows (env : Env) (p : Pool) : Type 0 where
    pub stored :
        ((lookup tvl_key env.storage ≡ none) × (p.total ≡ pos 0))
        ⊎ ((v : ScVal) × (lookup tvl_key env.storage ≡ some v)
            × (sdk.i128_from_val v ≡ some p.total))
    pub emissions : env.emitted ≡ map emission p.events

  stored-get :
      (env : Env) (p : Pool)
      → Shows env p
      → (o : Option ℤ) × (get_as sdk.i128_from_val tvl_key env ≡ some (o, env))
        × (unwrap_or o (pos 0) ≡ p.total)
  stored-get env p s = elim s.stored [
    | inl h ↦ (none, get_as-none sdk.i128_from_val tvl_key env h.0, sym h.1)
    | inr h ↦ (some p.total, get_as-some sdk.i128_from_val tvl_key env h.0 p.total h.1 h.2, refl)
  ]

  abbrev deposited : Request → ℤ → Env → Env
  deposited r total env = record (at_ledger r env) {
    storage = insert tvl_key (sdk.i128_to_val (total +ℤ r.amount)) env.storage;
    emitted = env.emitted ++ emission (event_of r total) ∷ [];
  }

  emit_deposit-run :
      (r : Request) (total : ℤ) (env : Env)
      → is_i128 (total +ℤ r.amount) ≡ true
      → emit_deposit sdk into_val r.from r.amount total (at_ledger r env)
        ≡ some (
          tt,
          record (at_ledger r env) { emitted = env.emitted ++ emission (event_of r total) ∷ [] },
        )
  unfolding emit_deposit
  emit_deposit-run r total env fits = rw (checked_add-some total r.amount fits) refl

  -- A deposit that fits writes the new total and emits one event; one that does not is a trap.
  store_deposit-run :
      (r : Request) (total : ℤ) (env : Env)
      → store_deposit sdk into_val r.from r.amount total (at_ledger r env)
        ≡ (if is_i128 (total +ℤ r.amount) then some (tt, deposited r total env) else none)
  unfolding store_deposit
  store_deposit-run r total env = elim (Bool-cases (is_i128 (total +ℤ r.amount))) [
    | inl fits ↦
        rw (fits, checked_add-some total r.amount fits)
          (emit_deposit-run r total
            (record (at_ledger r env) {
              storage = insert tvl_key (sdk.i128_to_val (total +ℤ r.amount)) env.storage;
            })
            fits)
    | inr over ↦ rw (over, checked_add-none total r.amount over) refl
  ]

  deposit-run :
      (r : Request) (env : Env) (p : Pool)
      → Shows env p
      → deposit sdk into_val r.from r.amount (at_ledger r env)
        ≡ (if is_i128 (p.total +ℤ r.amount) then some (tt, deposited r p.total env) else none)
  unfolding deposit
  deposit-run r env p s =
      let (o, read, total) =
        stored-get (at_ledger r env) p (record { stored = s.stored; emissions = s.emissions }) in
      bind-some (get_as sdk.i128_from_val tvl_key)
        (λ stored. store_deposit sdk into_val r.from r.amount (unwrap_or stored (pos 0)))
        (at_ledger r env) (at_ledger r env) o read
      ∙ ap (λ t. store_deposit sdk into_val r.from r.amount t (at_ledger r env)) total
      ∙ store_deposit-run r p.total env

  module _
      (back : (z : ℤ) → is_i128 z ≡ true → sdk.i128_from_val (sdk.i128_to_val z) ≡ some z) where
    deposited-Shows :
        (r : Request) (env : Env) (p : Pool)
        → Shows env p
        → is_i128 (p.total +ℤ r.amount) ≡ true
        → Shows
            (deposited r p.total env)
            (record { total = p.total +ℤ r.amount; events = p.events ++ event_of r p.total ∷ [] })
    deposited-Shows r env p s fits = record {
      stored = inr (
        sdk.i128_to_val (p.total +ℤ r.amount),
        lookup-insert_self tvl_key (sdk.i128_to_val (p.total +ℤ r.amount)) env.storage,
        back (p.total +ℤ r.amount) fits,
      );
      emissions =
          ap (λ es. es ++ emission (event_of r p.total) ∷ []) s.emissions
          ∙ sym (map-append emission p.events (event_of r p.total ∷ []));
    }

    submit-Shows :
        (r : Request) (env : Env) (p : Pool) → Shows env p → Shows (submit r env) (accept r p)
    unfolding submit accept
    submit-Shows r env p s = elim (Bool-cases (is_i128 (p.total +ℤ r.amount))) [
      | inl fits ↦
          let run = deposit-run r env p s ∙ rw fits refl in
          rw
            (
              transact-some (deposit sdk into_val r.from r.amount) (at_ledger r env) tt
                  (deposited r p.total env) run,
              fits,
            )
            (deposited-Shows r env p s fits)
      | inr over ↦
          let run = deposit-run r env p s ∙ rw over refl in
          rw (transact-none (deposit sdk into_val r.from r.amount) (at_ledger r env) run, over)
            (record { stored = s.stored; emissions = s.emissions })
    ]

    -- If the conversions of `i128` are inverse, and whatever deposits are made in whatever ledgers,
    -- the contract does what the pool does: if its storage shows the pool's total and its emissions
    -- are the pool's events, this is so after any list of transactions. A deposit that takes the
    -- total out of the range of `i128` is undone.
    pub submit_all-Shows :
        (rs : List Request) (env : Env) (p : Pool)
        → Shows env p
        → Shows (submit_all rs env) (accept_all rs p)
    unfolding submit_all accept_all
    submit_all-Shows [] env p s = s
    submit_all-Shows (r ∷ rs) env p s =
        submit_all-Shows rs (submit r env) (accept r p) (submit-Shows r env p s)
