-- ===== src/Contracts/Factory/Register.antt =====
-- The pool hash of examples/soroban-insurance-factory/src/lib.rs is a register that is written once.
use retroshade.Base.{
  List, [], ◌∷◌, Option, none, some, ◌≡◌, refl, ap, sym, ◌∙◌, inl, inr, Option-cases, subst,
}
use retroshade.Base.Dict.{lookup, insert, lookup-insert_self}
use retroshade.Xdr.Value.{Bytes, Hash, ScAddress, ScVal, ScVal-eq}
use retroshade.Contracts.Env.{
  Env, Call, ◌>>=◌, ◌>>◌, done, get_as-none, get_as-some, >>=-eq-some, transact, transact-some,
  transact-none,
}
use retroshade.Contracts.Factory.{
  already_initialized, initialize_symbol, Reply, PoolArgs, Deployer, LiquidityPools, init_factory,
  get_pool_hash, deploy_pool, initialize,
}

pub data Invoke : Type 0 where
  init_call : Hash → Invoke
  initialize_call : Hash → PoolArgs → Invoke

-- The hash of the first `init_factory`.
abbrev pub first_hash : List Invoke → Option Hash
first_hash [] = none
first_hash (init_call p ∷ cs) = some p
first_hash (initialize_call _ _ ∷ cs) = first_hash cs

-- A register that keeps the first hash.
unfoldable pub write : Invoke → Option Hash → Option Hash
write (init_call p) none = some p
write (init_call p) (some q) = some q
write (initialize_call _ _) o = o

unfoldable pub write_all : List Invoke → Option Hash → Option Hash
write_all [] o = o
write_all (c ∷ cs) o = write_all cs (write c o)

write_all-some : (cs : List Invoke) (p : Hash) → write_all cs (some p) ≡ some p
unfolding write_all write
write_all-some [] p = refl
write_all-some (init_call q ∷ cs) p = write_all-some cs p
write_all-some (initialize_call _ _ ∷ cs) p = write_all-some cs p

write_all-none : (cs : List Invoke) → write_all cs none ≡ first_hash cs
unfolding write_all write
write_all-none [] = refl
write_all-none (init_call p ∷ cs) = write_all-some cs p
write_all-none (initialize_call _ _ ∷ cs) = write_all-none cs

-- A contract's storage is its own: the host deploys and runs another contract, and emits, without
-- writing to it.
pub record IsIsolated (d : Deployer) : Type 0 where
  pub deploy :
      (p salt : Hash) (a : ScAddress) (env env' : Env)
      → d.deploy p salt env ≡ some (a, env')
      → env'.storage ≡ env.storage
  pub invoke_contract :
      (a : ScAddress) (f : Bytes) (vs : List ScVal) (v : ScVal) (env env' : Env)
      → d.invoke_contract a f vs env ≡ some (v, env')
      → env'.storage ≡ env.storage
  pub emit :
      (e : LiquidityPools) (u : Unit {0}) (env env' : Env)
      → d.emit e env ≡ some (u, env')
      → env'.storage ≡ env.storage

module _ (d : Deployer) where
  unfoldable pub submit : Invoke → Env → Env
  submit (init_call p) env = transact (init_factory d p) env
  submit (initialize_call salt args) env = transact (initialize d salt args) env

  unfoldable pub submit_all : List Invoke → Env → Env
  submit_all [] env = env
  submit_all (c ∷ cs) env = submit_all cs (submit c env)

  -- The storage holds the register.
  abbrev pub Holds : Env → Option Hash → Type 0
  Holds env none = lookup d.pool_hash_key env.storage ≡ none
  Holds env (some p) =
      (v : ScVal) × (lookup d.pool_hash_key env.storage ≡ some v) × (d.sdk.hash_from_val v ≡ some p)

  Holds-storage :
      (env env' : Env) (o : Option Hash) → env'.storage ≡ env.storage → Holds env o → Holds env' o
  Holds-storage env env' none e h = rw e h
  Holds-storage env env' (some p) e h = rw e h

  initialize-none :
      (salt : Hash) (args : PoolArgs) (env : Env)
      → Holds env none
      → initialize d salt args env ≡ none
  unfolding initialize get_pool_hash
  initialize-none salt args env h =
      rw (get_as-none d.sdk.hash_from_val d.pool_hash_key env h, ◌>>=◌) refl

  initialize-some :
      (salt : Hash) (args : PoolArgs) (env : Env) (p : Hash)
      → Holds env (some p)
      → initialize d salt args env ≡ deploy_pool d salt args p env
  unfolding initialize get_pool_hash
  initialize-some salt args env p (v, l, f) =
      rw (get_as-some d.sdk.hash_from_val d.pool_hash_key env v p l f, ◌>>=◌) refl

  -- The steps of a deployment, each of which may fail: the pool of a hash and a salt, its call of
  -- "initialize" with the arguments, and the event that names it.
  abbrev emitted : ScAddress → Option (Unit {0} × Env) → Option (Reply ScAddress × Env)
  emitted a none = none
  emitted a (some (_, env)) = some (Reply.accepted a, env)

  abbrev started : ScAddress → Option (ScVal × Env) → Option (Reply ScAddress × Env)
  started a none = none
  started a (some (_, env)) = emitted a (d.emit (record { pools = a }) env)

  abbrev deployed : PoolArgs → Option (ScAddress × Env) → Option (Reply ScAddress × Env)
  deployed args none = none
  deployed args (some (a, env)) = started a (
      d.invoke_contract a (b'i' ∷ b'n' ∷ b'i' ∷ b't' ∷ b'i' ∷ b'a' ∷ b'l' ∷ b'i' ∷ b'z' ∷ b'e' ∷ [])
        (d.args_into_val args) env)

  deploy_pool-deployed :
      (salt : Hash) (args : PoolArgs) (p : Hash) (env : Env)
      → deploy_pool d salt args p env ≡ deployed args (d.deploy p salt env)
  unfolding deploy_pool
  deploy_pool-deployed salt args p env = elim (Option-cases (d.deploy p salt env)) [
    | inl e ↦ rw (e, ◌>>=◌) refl
    | inr ((a, env1), e) ↦
        let start = d.invoke_contract a initialize_symbol (d.args_into_val args) env1 in
        elim (Option-cases start) [
          | inl e1 ↦ rw (e, e1, ◌>>=◌) refl
          | inr ((v, env2), e1) ↦ elim (Option-cases (d.emit (record { pools = a }) env2)) [
            | inl e2 ↦ rw (e, e1, e2, ◌>>=◌) refl
            | inr ((u, env3), e2) ↦ rw (e, e1, e2, ◌>>=◌) refl
          ]
        ]
  ]

  -- What the calls do at a register.
  abbrev pub deploy_from : Hash → PoolArgs → Option Hash → Call (Reply ScAddress)
  deploy_from salt args none env = none
  deploy_from salt args (some p) env = deployed args (d.deploy p salt env)

  abbrev pub init_from : Hash → Option Hash → Call (Reply (Unit {0}))
  init_from p none env = some (
    Reply.accepted tt,
    record env { storage = insert d.pool_hash_key (d.sdk.hash_to_val p) env.storage },
  )
  init_from p (some q) env = some (Reply.refused already_initialized, env)

  deploy-first :
      (salt : Hash) (args : PoolArgs) (o : Option Hash) (env : Env)
      → Holds env o
      → initialize d salt args env ≡ deploy_from salt args o env
  deploy-first salt args none env h = initialize-none salt args env h
  deploy-first salt args (some p) env h =
      initialize-some salt args env p h ∙ deploy_pool-deployed salt args p env

  init-first :
      (p : Hash) (o : Option Hash) (env : Env)
      → Holds env o
      → init_factory d p env ≡ init_from p o env
  unfolding init_factory
  init-first p none env h = rw h refl
  init-first p (some q) env (v, l, f) = rw l refl

  module _ (isolated : IsIsolated d)
      (back : (p : Hash) → d.sdk.hash_from_val (d.sdk.hash_to_val p) ≡ some p) where
    deploy_pool-storage :
        (salt : Hash) (args : PoolArgs) (p : Hash) (r : Reply ScAddress) (env env' : Env)
        → deploy_pool d salt args p env ≡ some (r, env')
        → env'.storage ≡ env.storage
    unfolding deploy_pool
    deploy_pool-storage salt args p r env env' h =
        let finish = λ (a : ScAddress). d.emit (record { pools = a }) >> done (Reply.accepted a) in
        let vals = d.args_into_val args in
        let start = λ (a : ScAddress). d.invoke_contract a initialize_symbol vals >> finish a in
        let (a, (m1, e1, r1)) = >>=-eq-some (d.deploy p salt) start env env' r h in
        let (v, (m2, e2, r2)) =
          >>=-eq-some (d.invoke_contract a initialize_symbol vals) (λ _. finish a) m1 env' r r1 in
        let (u, (m3, e3, r3)) =
          >>=-eq-some (d.emit (record { pools = a })) (λ _. done (Reply.accepted a)) m2 env' r r2 in
        let last : m3 ≡ env' = cc in
        ap (λ m. m.storage) (sym last)
        ∙ isolated.emit (record { pools = a }) u m2 m3 e3
        ∙ isolated.invoke_contract a initialize_symbol vals v m1 m2 e2
        ∙ isolated.deploy p salt a env m1 e1

    submit-Holds :
        (c : Invoke) (env : Env) (o : Option Hash) → Holds env o → Holds (submit c env) (write c o)
    unfolding submit write
    submit-Holds (init_call p) env none h =
        rw (transact-some (init_factory d p) env (Reply.accepted tt) _ (init-first p none env h))
          (d.sdk.hash_to_val p, lookup-insert_self d.pool_hash_key _ env.storage, back p)
    submit-Holds (init_call p) env (some q) h =
        rw (transact-some (init_factory d p) env _ env (init-first p (some q) env h)) h
    submit-Holds (initialize_call salt args) env none h =
        rw (transact-none (initialize d salt args) env (initialize-none salt args env h)) h
    submit-Holds (initialize_call salt args) env (some q) h =
        elim (Option-cases (initialize d salt args env)) [
          | inl e ↦ rw (transact-none (initialize d salt args) env e) h
          | inr (r, e) ↦
              let kept =
                deploy_pool-storage salt args q r.0 env r.1
                  (sym (initialize-some salt args env q h) ∙ e) in
              rw (transact-some (initialize d salt args) env r.0 r.1 e)
                (Holds-storage env r.1 (some q) kept h)
        ]

    submit_all-Holds :
        (cs : List Invoke) (env : Env) (o : Option Hash)
        → Holds env o
        → Holds (submit_all cs env) (write_all cs o)
    unfolding submit_all write_all
    submit_all-Holds [] env o h = h
    submit_all-Holds (c ∷ cs) env o h =
        submit_all-Holds cs (submit c env) (write c o) (submit-Holds c env o h)

    -- If contracts are isolated and the conversions of a hash are inverse: in a factory that starts
    -- without a hash, after any transactions, `initialize` fails if there was no `init_factory`. If
    -- there was one, it deploys a pool from the hash of the first and its own salt, calls
    -- "initialize" of that pool with its arguments, emits the pool's address and returns it; it
    -- fails where one of these three steps does.
    pub initialize-first_hash :
        (cs : List Invoke) (env : Env) (salt : Hash) (args : PoolArgs)
        → lookup d.pool_hash_key env.storage ≡ none
        → initialize d salt args (submit_all cs env)
          ≡ deploy_from salt args (first_hash cs) (submit_all cs env)
    initialize-first_hash cs env salt args fresh =
        deploy-first salt args (first_hash cs) _ (
          subst (Holds (submit_all cs env)) (write_all-none cs)
            (submit_all-Holds cs env none fresh))

    -- If contracts are isolated and the conversions of a hash are inverse: in a factory that starts
    -- without a hash, after any transactions, `init_factory` is refused as already initialized, and
    -- writes nothing, if there was one before; else it succeeds and stores its hash.
    pub init_factory-first_hash :
        (cs : List Invoke) (env : Env) (p : Hash)
        → lookup d.pool_hash_key env.storage ≡ none
        → init_factory d p (submit_all cs env) ≡ init_from p (first_hash cs) (submit_all cs env)
    init_factory-first_hash cs env p fresh =
        init-first p (first_hash cs) _ (
          subst (Holds (submit_all cs env)) (write_all-none cs)
            (submit_all-Holds cs env none fresh))
