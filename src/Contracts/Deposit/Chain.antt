-- ===== src/Contracts/Deposit/Chain.antt =====
-- The chain of events that the deposits of examples/deposit/src/lib.rs leave.
use retroshade.Base.{
  true, List, [], ◌∷◌, ◌++◌, none, some, ◌≡◌, refl, ap, sym, inl, inr, Bool-cases,
}
use retroshade.Base.Int.{ℤ, pos, ◌+ℤ◌, is_i128}
use retroshade.Base.Dict.{lookup}
use retroshade.Xdr.Value.{ScVal, ScVal-eq}
use retroshade.Contracts.Env.{Env, Sdk}
use retroshade.Contracts.Deposit.{DepositEvent, tvl_key}
use retroshade.Contracts.Deposit.Pool.{
  Pool, Request, event_of, accept, accept_all, submit_all, Shows, submit_all-Shows,
}

-- Each event starts from the total that the one before it left, and the last one leaves the total.
abbrev pub Chained : ℤ → List DepositEvent → ℤ → Type 0
Chained start [] end = start ≡ end
Chained start (e ∷ es) end =
    (e.previous_tvl ≡ start)
    × (e.now_tvl ≡ start +ℤ e.amount)
    × (is_i128 e.now_tvl ≡ true)
    × Chained e.now_tvl es end

Chained-append :
    (start : ℤ) (es : List DepositEvent) (r : Request) (total : ℤ)
    → Chained start es total
    → is_i128 (total +ℤ r.amount) ≡ true
    → Chained start (es ++ event_of r total ∷ []) (total +ℤ r.amount)
Chained-append start [] r total c fits = (sym c, ap (λ t. t +ℤ r.amount) (sym c), fits, refl)
Chained-append start (e ∷ es) r total (p, n, i, c) fits =
    (p, n, i, Chained-append e.now_tvl es r total c fits)

accept-Chained :
    (start : ℤ) (r : Request) (p : Pool)
    → Chained start p.events p.total
    → Chained start (accept r p).events (accept r p).total
unfolding accept
accept-Chained start r p c = elim (Bool-cases (is_i128 (p.total +ℤ r.amount))) [
  | inl fits ↦ rw fits (Chained-append start p.events r p.total c fits)
  | inr over ↦ rw over c
]

accept_all-Chained :
    (start : ℤ) (rs : List Request) (p : Pool)
    → Chained start p.events p.total
    → Chained start (accept_all rs p).events (accept_all rs p).total
unfolding accept_all
accept_all-Chained start [] p c = c
accept_all-Chained start (r ∷ rs) p c =
    accept_all-Chained start rs (accept r p) (accept-Chained start r p c)

module _ (sdk : Sdk) (into_val : DepositEvent → ScVal)
    (back : (z : ℤ) → is_i128 z ≡ true → sdk.i128_from_val (sdk.i128_to_val z) ≡ some z) where
  -- If the conversions of `i128` are inverse: after any deposits into a contract without a total,
  -- in any ledgers, its emissions are a chain of events from zero to the total that its storage
  -- shows. Each event starts from the total that the one before it left, adds its amount, and stays
  -- in the range of `i128`.
  pub submit_all-Chained :
      (rs : List Request) (env : Env)
      → lookup tvl_key env.storage ≡ none
      → env.emitted ≡ []
      → (p : Pool) × Shows sdk into_val (submit_all sdk into_val rs env) p
        × Chained (pos 0) p.events p.total
  submit_all-Chained rs env fresh quiet =
      let p : Pool = record { total = pos 0; events = [] } in
      (
        accept_all rs p,
        submit_all-Shows sdk into_val back rs env p
            (record { stored = inl (fresh, refl); emissions = quiet }),
        accept_all-Chained (pos 0) rs p refl,
      )
