-- ===== src/Conversion/Shape.antt =====
-- What `from_scval` of retroshade/src/conversion.rs makes: scalars and arrays of scalars.
use retroshade.Base.{
  ℕ, ◌+◌, ◌≤◌, Bool, true, false, ◌&&◌, not, Option, some, ltb, if◌then◌else◌, ◌==◌, ◌≡◌, ◌⊎◌, refl,
  sym, subst, inl, inr, Bool-cases, Option-cases, arith,
}
use retroshade.Base.Int.{ℤ}
use retroshade.Xdr.Value.{
  UInt128Parts, Int128Parts, UInt256Parts, Int256Parts, ScVal, ScVals, OptVals, OptMap, Opaque,
}
use retroshade.Execution.{Outcome, ok, ◌>>=◌, unwrap}
use retroshade.Conversion.Codec.{Text, Codec}
use retroshade.Conversion.Number.{
  num_to_string, u128_to_bigint, i128_to_bigint, u256_to_bigint, i256_to_bigint,
}
use retroshade.Conversion.Value.{
  max_allowed_recursion_depth, SqlType, SqlType-eq, TypeKind, FromScVal, FromScVals, dbtype, kind,
  all_same, array_type, array_column, from_scval, from_scvals, vec_column, json_column, wide_column,
}

-- The encoders that are unwrapped do not fail: a derived serialiser writes every value, and a big
-- integer is made of every machine integer.
pub record Succeeds (c : Codec) : Type 0 where
  pub json_vec : (v : OptVals) → (s : Text) × (c.json_vec v ≡ some s)
  pub json_map : (m : OptMap) → (s : Text) × (c.json_map m ≡ some s)
  pub json_error : (e : Opaque) → (s : Text) × (c.json_error e ≡ some s)
  pub from_i64 : (n : ℤ) → (b : c.BigInt) × (c.from_i64 n ≡ some b)
  pub from_u64 : (n : ℕ) → (b : c.BigInt) × (c.from_u64 n ≡ some b)

-- The type that goes with the kind of a scalar.
unfoldable pub is_scalar : FromScVal → Bool
is_scalar (FromScVal.column SqlType.bool (TypeKind.boolean _)) = true
is_scalar (FromScVal.column SqlType.numeric (TypeKind.numeric _)) = true
is_scalar (FromScVal.column SqlType.text (TypeKind.text _)) = true
is_scalar (FromScVal.column SqlType.text TypeKind.void) = true
is_scalar (FromScVal.column SqlType.bytea (TypeKind.text _)) = true
is_scalar _ = false

unfoldable pub all_scalar : FromScVals → Bool
unfolding is_scalar
all_scalar FromScVals.nil = true
all_scalar (FromScVals.cons x xs) = is_scalar x && all_scalar xs

-- Scalars of one type, under the type of their array.
unfoldable pub is_array : FromScVal → Bool
unfolding all_scalar all_same array_type
is_array (FromScVal.column t (TypeKind.generic_array (FromScVals.cons x xs))) =
    t == array_type (kind x)
    && not (t == SqlType.text)
    && all_same (dbtype x) (FromScVals.cons x xs)
    && all_scalar (FromScVals.cons x xs)
is_array _ = false

array_column-is_array :
    (xs : FromScVals) (y : FromScVal)
    → all_scalar xs ≡ true
    → array_column xs ≡ some y
    → is_array y ≡ true
unfolding array_column is_array
array_column-is_array FromScVals.nil y h e = cc
array_column-is_array (FromScVals.cons x xs) y h e =
    ground (arith, SqlType-eq.eqb_iff (array_type (kind x)) (array_type (kind x)))

-- The outcome is a value with the property.
abbrev pub Returns {ℓ κ} : {A : Type ℓ} → Outcome A → (A → Type κ) → Type (ℓ ⊔ κ)
Returns {A = A} o P = (a : A) × (o ≡ ok a) × P a

abbrev AnyResult {ℓ} : {A : Type ℓ} → A → Type 0
AnyResult _ = Unit

pub Returns-bind {ℓ κ μ ν} :
    {A : Type ℓ} {B : Type κ} {P : A → Type μ} {Q : B → Type ν} (o : Outcome A) (f : A → Outcome B)
    → Returns o P
    → ((a : A) → P a → Returns (f a) Q)
    → Returns (o >>= f) Q
Returns-bind o f (a, e, p) rest = let (b, q, r) = rest a p in (b, rw e q, r)

Returns-unwrap {ℓ} :
    {A : Type ℓ} {o : Option A} → (a : A) × (o ≡ some a) → Returns (unwrap o) AnyResult
Returns-unwrap (a, e) = (a, rw e, tt)

pub Returns-self {ℓ κ} :
    {A : Type ℓ} {P : A → Type κ} {o : Outcome A} → Returns o P → Returns o (λ a. o ≡ ok a)
Returns-self (a, e, _) = (a, e, e)

pub Returns-ok {ℓ κ} : {A : Type ℓ} {P : A → Type κ} (a : A) → P a → Returns (ok a) P
Returns-ok a p = (a, refl, p)

-- At depth 0 the result is a scalar or an array of scalars of one type; below that, a scalar. The
-- counter does not fall.
abbrev pub ColumnFrom : ℕ → FromScVal × ℕ → Type 0
ColumnFrom depth (x, depth') =
    (depth ≤ depth') × ((is_scalar x ≡ true) ⊎ ((depth ≡ 0) × (is_array x ≡ true)))

abbrev pub ScalarsFrom : ℕ → FromScVals × ℕ → Type 0
ScalarsFrom depth (xs, depth') = (depth ≤ depth') × (all_scalar xs ≡ true)

module _ (c : Codec) (works : Succeeds c) where
  u128_to_bigint-Returns : (p : UInt128Parts) → Returns (u128_to_bigint c p) AnyResult
  unfolding u128_to_bigint
  u128_to_bigint-Returns p =
      Returns-bind _ _ (Returns-unwrap (works.from_u64 p.hi))
        λ hi _. Returns-bind _ _ (Returns-unwrap (works.from_u64 p.lo)) λ lo _. Returns-ok _ tt

  i128_to_bigint-Returns : (p : Int128Parts) → Returns (i128_to_bigint c p) AnyResult
  unfolding i128_to_bigint
  i128_to_bigint-Returns p =
      Returns-bind _ _ (Returns-unwrap (works.from_i64 p.hi))
        λ hi _. Returns-bind _ _ (Returns-unwrap (works.from_u64 p.lo)) λ lo _. Returns-ok _ tt

  u256_to_bigint-Returns : (p : UInt256Parts) → Returns (u256_to_bigint c p) AnyResult
  unfolding u256_to_bigint
  u256_to_bigint-Returns p = Returns-bind _ _ (Returns-unwrap (works.from_u64 p.hi_hi)) λ _ _.
      Returns-bind _ _ (Returns-unwrap (works.from_u64 p.hi_lo)) λ _ _.
        Returns-bind _ _ (Returns-unwrap (works.from_u64 p.lo_hi))
          λ _ _. Returns-bind _ _ (Returns-unwrap (works.from_u64 p.lo_lo)) λ _ _. Returns-ok _ tt

  i256_to_bigint-Returns : (p : Int256Parts) → Returns (i256_to_bigint c p) AnyResult
  unfolding i256_to_bigint
  i256_to_bigint-Returns p = Returns-bind _ _ (Returns-unwrap (works.from_i64 p.hi_hi)) λ _ _.
      Returns-bind _ _ (Returns-unwrap (works.from_u64 p.hi_lo)) λ _ _.
        Returns-bind _ _ (Returns-unwrap (works.from_u64 p.lo_hi))
          λ _ _. Returns-bind _ _ (Returns-unwrap (works.from_u64 p.lo_lo)) λ _ _. Returns-ok _ tt

  scalar_now : (x : FromScVal) (depth : ℕ) → is_scalar x ≡ true → ColumnFrom depth (x, depth)
  scalar_now x depth h = (omega arith, inl h)

  json_column-ColumnFrom :
      (o : Option Text) (depth : ℕ)
      → (s : Text) × (o ≡ some s)
      → Returns (json_column c o depth) (λ r. ColumnFrom depth r)
  unfolding is_scalar
  json_column-ColumnFrom o depth h =
      Returns-bind _ _ (Returns-unwrap h) λ s _. Returns-ok _ (scalar_now _ depth refl)

  wide_column-ColumnFrom :
      (v : ScVal) (depth : ℕ)
      → Returns (num_to_string c v) AnyResult
      → Returns (wide_column c v depth) (ColumnFrom depth)
  unfolding is_scalar
  wide_column-ColumnFrom v depth h =
      Returns-bind _ _ h λ s _. Returns-ok _ (scalar_now _ depth refl)

  vec_column-ColumnFrom :
      (v : OptVals) (xs : FromScVals) (depth : ℕ)
      → all_scalar xs ≡ true
      → 1 ≤ depth
      → Returns (vec_column c v xs depth) (ColumnFrom 0)
  unfolding vec_column is_scalar
  vec_column-ColumnFrom v xs depth h d = elim (Option-cases (array_column xs)) [
    | inl e ↦
        rw (e, vec_column)
          (Returns-bind _ _ (Returns-unwrap (works.json_vec v))
            λ s _. Returns-ok _ (omega arith, inl refl))
    | inr (y, e) ↦
        rw (e, vec_column) (Returns-ok _ (omega arith, inr (refl, array_column-is_array xs y h e)))
  ]

  deepen :
      (depth : ℕ) (o : Outcome (FromScVal × ℕ))
      → Returns o (ColumnFrom (depth + 1))
      → Returns o (ColumnFrom depth)
  deepen depth o ((x, d), e, h) = ((x, d), e, (omega arith, ground arith))

  surface :
      (depth : ℕ) (o : Outcome (FromScVal × ℕ))
      → depth ≡ 0
      → Returns o (ColumnFrom 0)
      → Returns o (ColumnFrom depth)
  surface depth o top h = subst (λ d. Returns o (ColumnFrom d)) (sym top) h

  vec_branch :
      (vecm : ScVals) (depth : ℕ) (inner : Outcome (FromScVals × ℕ))
      → Returns inner (ScalarsFrom (depth + 1))
      → Returns
          (if ltb max_allowed_recursion_depth (depth + 1)
            then json_column c (c.json_vec (OptVals.some_vec vecm)) (depth + 1)
            else (inner >>= λ r. vec_column c (OptVals.some_vec vecm) r.0 r.1))
          (ColumnFrom depth)
  vec_branch vecm depth inner h = elim (Bool-cases (ltb max_allowed_recursion_depth (depth + 1))) [
    | inl deep ↦ rw deep (
        deepen depth _
          (json_column-ColumnFrom _ (depth + 1) (works.json_vec (OptVals.some_vec vecm))))
    | inr top ↦
        let none_yet : depth ≡ 0 = ground arith in
        rw top (
          surface depth _ none_yet (
            Returns-bind _ _ h
              λ r p. vec_column-ColumnFrom (OptVals.some_vec vecm) r.0 r.1 p.1 (omega arith)))
  ]

  mutual
    unfolding from_scval is_scalar all_scalar num_to_string

    from_scval-Column : (v : ScVal) (depth : ℕ) → Returns (from_scval c v depth) (ColumnFrom depth)
    from_scval-Column (ScVal.u128 p) depth =
        wide_column-ColumnFrom (ScVal.u128 p) depth
          (Returns-bind _ _ (u128_to_bigint-Returns p) λ _ _. Returns-ok _ tt)
    from_scval-Column (ScVal.i128 p) depth =
        wide_column-ColumnFrom (ScVal.i128 p) depth
          (Returns-bind _ _ (i128_to_bigint-Returns p) λ _ _. Returns-ok _ tt)
    from_scval-Column (ScVal.u256 p) depth =
        wide_column-ColumnFrom (ScVal.u256 p) depth
          (Returns-bind _ _ (u256_to_bigint-Returns p) λ _ _. Returns-ok _ tt)
    from_scval-Column (ScVal.i256 p) depth =
        wide_column-ColumnFrom (ScVal.i256 p) depth
          (Returns-bind _ _ (i256_to_bigint-Returns p) λ _ _. Returns-ok _ tt)
    from_scval-Column (ScVal.map m) depth = json_column-ColumnFrom _ depth (works.json_map m)
    from_scval-Column (ScVal.error e) depth = json_column-ColumnFrom _ depth (works.json_error e)
    from_scval-Column (ScVal.vec OptVals.no_vec) depth =
        deepen depth _ (json_column-ColumnFrom _ (depth + 1) (works.json_vec OptVals.no_vec))
    from_scval-Column (ScVal.vec (OptVals.some_vec vecm)) depth =
        vec_branch vecm depth _ (from_scvals-Scalars vecm (depth + 1) (omega arith))
    from_scval-Column _ depth = Returns-ok _ (scalar_now _ depth refl)

    from_scvals-Scalars :
        (vs : ScVals) (depth : ℕ) → 1 ≤ depth → Returns (from_scvals c vs depth) (ScalarsFrom depth)
    from_scvals-Scalars ScVals.nil depth h = Returns-ok _ (omega arith, refl)
    from_scvals-Scalars (ScVals.cons v vs) depth h =
        Returns-bind _ _ (from_scval-Column v depth) λ r p.
          Returns-bind _ _ (from_scvals-Scalars vs r.1 (omega arith))
            λ rs q. Returns-ok _ (omega arith, ground arith)

  -- If the encoders work, a conversion never panics. Its result is a scalar of a kind that goes
  -- with its type, or, for a fresh counter only, a non-empty array of such scalars, all of one
  -- type, under the type of their array; the counter does not fall.
  pub from_scval-ColumnFrom :
      (v : ScVal) (depth : ℕ) → Returns (from_scval c v depth) (ColumnFrom depth)
  from_scval-ColumnFrom v depth = from_scval-Column v depth
