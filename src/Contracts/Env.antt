-- ===== src/Contracts/Env.antt =====
-- What a contract of examples uses of its environment: its instance storage, the ledger's number
-- and time, and `zephyr_emit`.
use retroshade.Base.{
  ℕ, true, false, List, [], ◌∷◌, ◌++◌, Option, none, some, ◌≡◌, ◌≢◌, refl, inl, inr, Option-cases,
}
use retroshade.Base.Int.{ℤ, ◌+ℤ◌, is_i128}
use retroshade.Base.Dict.{lookup, insert}
use retroshade.Xdr.Value.{Hash, ScAddress, ScVal, ScVal-eq}

pub record Env : Type 0 where
  pub storage : List (ScVal × ScVal)
  -- The calls of `zephyr_emit` so far, target and event.
  pub emitted : List (ScVal × ScVal)
  pub current_contract_address : ScAddress
  pub sequence : ℕ
  pub timestamp : ℕ

-- A call of a contract: `none` is a trap, after which the host undoes what the call has written.
abbrev pub Call {ℓ} : Type ℓ → Type ℓ
Call A = Env → Option (A × Env)

infixl 5 ◌>>=◌ ◌>>◌
abbrev pub ◌>>=◌ {ℓ κ} : {A : Type ℓ} {B : Type κ} → Call A → (A → Call B) → Call B
◌>>=◌ m f env = elim (m env) [ none ↦ none | some (a, env') ↦ f a env' ]

abbrev pub ◌>>◌ {ℓ κ} : {A : Type ℓ} {B : Type κ} → Call A → Call B → Call B
m >> k = m >>= λ _. k

abbrev pub done {ℓ} : {A : Type ℓ} → A → Call A
done a env = some (a, env)

-- `unwrap` of an option, and a conversion that may trap.
abbrev pub or_trap {ℓ} : {A : Type ℓ} → Option A → Call A
or_trap none env = none
or_trap (some a) env = some (a, env)

abbrev pub set : ScVal → ScVal → Call (Unit {0})
set key val env = some (tt, record env { storage = insert key val env.storage })

-- `zephyr_emit(target, event)`.
abbrev pub zephyr_emit : ScVal → ScVal → Call (Unit {0})
zephyr_emit target event env =
    some (tt, record env { emitted = env.emitted ++ (target, event) ∷ [] })

-- The conversions of soroban-sdk between numbers or hashes and values.
pub record Sdk : Type 0 where
  pub i128_to_val : ℤ → ScVal
  pub i128_from_val : ScVal → Option ℤ
  pub hash_to_val : Hash → ScVal
  pub hash_from_val : ScVal → Option Hash

abbrev pub decode {ℓ} : {A : Type ℓ} → (ScVal → Option A) → Option ScVal → Call (Option A)
decode from_val none = done none
decode from_val (some v) = do a ← or_trap (from_val v); done (some a)

-- `get::<_, i128>` and `get::<_, BytesN<32>>`: a value of another type is a trap.
unfoldable pub get_as {ℓ} : {A : Type ℓ} → (ScVal → Option A) → ScVal → Call (Option A)
get_as from_val key env = decode from_val (lookup key env.storage) env

module _ {ℓ} {A : Type ℓ} (from_val : ScVal → Option A) (key : ScVal) (env : Env) where
  pub get_as-none : lookup key env.storage ≡ none → get_as from_val key env ≡ some (none, env)
  unfolding get_as
  get_as-none h = rw h refl

  pub get_as-some :
      (v : ScVal) (a : A)
      → lookup key env.storage ≡ some v
      → from_val v ≡ some a
      → get_as from_val key env ≡ some (some a, env)
  unfolding get_as
  get_as-some v a h g = rw (h, g) refl

-- A step of a call that has run.
pub bind-some {ℓ κ} :
    {A : Type ℓ} {B : Type κ} (m : Call A) (f : A → Call B) (env env' : Env) (a : A)
    → m env ≡ some (a, env')
    → (m >>= f) env ≡ f a env'
bind-some m f env env' a h = rw (h, ◌>>=◌) refl

none-ne-some {ℓ} : {A : Type ℓ} {a : A} → none ≢ some a
none-ne-some h = cc

-- The two parts of a call that has run.
pub >>=-eq-some {ℓ κ} :
    {A : Type ℓ} {B : Type κ} (m : Call A) (f : A → Call B) (env env' : Env) (b : B)
    → (m >>= f) env ≡ some (b, env')
    → (a : A) × ((mid : Env) × (m env ≡ some (a, mid)) × (f a mid ≡ some (b, env')))
>>=-eq-some m f env env' b h = elim (Option-cases (m env)) [
  | inl e ↦ absurd (none-ne-some (rw (e, ◌>>=◌) at h))
  | inr (r, e) ↦ (r.0, (r.1, e, rw (e, ◌>>=◌) at h))
]

-- `a + b` of two `i128`, with overflow checks as in the release profiles.
unfoldable pub checked_add : ℤ → ℤ → Option ℤ
checked_add a b = elim (is_i128 (a +ℤ b)) [ true ↦ some (a +ℤ b) | false ↦ none ]

pub checked_add-some : (a b : ℤ) → is_i128 (a +ℤ b) ≡ true → checked_add a b ≡ some (a +ℤ b)
unfolding checked_add
checked_add-some a b h = rw (h, checked_add) refl

pub checked_add-none : (a b : ℤ) → is_i128 (a +ℤ b) ≡ false → checked_add a b ≡ none
unfolding checked_add
checked_add-none a b h = rw (h, checked_add) refl

-- A transaction that calls a contract; a trap leaves the environment as it was.
unfoldable pub transact {ℓ} : {A : Type ℓ} → Call A → Env → Env
transact call env = elim (call env) [ none ↦ env | some (_, env') ↦ env' ]

module _ {ℓ} {A : Type ℓ} (call : Call A) (env : Env) where
  pub transact-some : (a : A) (env' : Env) → call env ≡ some (a, env') → transact call env ≡ env'
  unfolding transact
  transact-some a env' h = rw (h, transact) refl

  pub transact-none : call env ≡ none → transact call env ≡ env
  unfolding transact
  transact-none h = rw (h, transact) refl
