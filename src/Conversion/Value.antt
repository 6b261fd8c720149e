-- ===== src/Conversion/Value.antt =====
-- retroshade/src/conversion.rs: `FromScVal::from_scval`, which turns a contract value into a typed
-- column. A panic of an `unwrap` is the outcome `panic`.
use retroshade.Base.{
  ℕ, ◌+◌, Bool, true, ◌&&◌, not, [], ◌∷◌, Option, none, some, ltb, if◌then◌else◌, Eq,
  eq_of_discrete, ◌==◌,
}
use retroshade.Xdr.Value.{ScVal, ScVals, OptVals, ScAddress}
use retroshade.Execution.{Outcome, ok, ◌>>=◌, unwrap}
use retroshade.Conversion.Codec.{Text, Codec}
use retroshade.Conversion.Number.{nat_text, int_text, num_to_string}

abbrev pub max_allowed_recursion_depth : ℕ
max_allowed_recursion_depth = 1

-- The types of postgres-types that the source names, and `other` for any other type.
pub data SqlType : Type 0 where
  bool text numeric float8 bytea bool_array text_array numeric_array float8_array other : SqlType

unfoldable pub SqlType-discrete : Discrete SqlType
SqlType-discrete = hlevel

instance abbrev pub SqlType-eq : Eq SqlType
SqlType-eq = eq_of_discrete SqlType-discrete

-- `column` is the struct `FromScVal`, and `FromScVals` the vector of an array.
mutual
  pub data TypeKind : Type 0 where
    generic_array : FromScVals → TypeKind
    text : Text → TypeKind
    boolean : Bool → TypeKind
    void : TypeKind
    numeric : Text → TypeKind

  pub data FromScVal : Type 0 where
    column : SqlType → TypeKind → FromScVal

  pub data FromScVals : Type 0 where
    nil : FromScVals
    cons : FromScVal → FromScVals → FromScVals

abbrev pub dbtype : FromScVal → SqlType
dbtype (FromScVal.column t _) = t

abbrev pub kind : FromScVal → TypeKind
kind (FromScVal.column _ k) = k

unfoldable pub all_same : SqlType → FromScVals → Bool
all_same t FromScVals.nil = true
all_same t (FromScVals.cons x xs) = dbtype x == t && all_same t xs

unfoldable pub array_type : TypeKind → SqlType
array_type (TypeKind.boolean _) = SqlType.bool_array
array_type (TypeKind.numeric _) = SqlType.numeric_array
array_type (TypeKind.text _) = SqlType.text_array
array_type _ = SqlType.text

-- The array of some elements, if there are any, if all have the type of the first, and if that is
-- of a kind that has an array.
unfoldable pub array_column : FromScVals → Option FromScVal
unfolding all_same array_type
array_column FromScVals.nil = none
array_column (FromScVals.cons x xs) =
    let inner_array = FromScVals.cons x xs in
    let t = array_type (kind x) in
    if all_same (dbtype x) inner_array && not (t == SqlType.text)
    then some (FromScVal.column t (TypeKind.generic_array inner_array))
    else none

-- "Invalid"
abbrev invalid_text : Text
invalid_text = b'I' ∷ b'n' ∷ b'v' ∷ b'a' ∷ b'l' ∷ b'i' ∷ b'd' ∷ []

abbrev pub text_column : Text → FromScVal
text_column s = FromScVal.column SqlType.text (TypeKind.text s)

abbrev pub numeric_column : Text → FromScVal
numeric_column s = FromScVal.column SqlType.numeric (TypeKind.numeric s)

module _ (c : Codec) where
  unfoldable pub address_text : ScAddress → Text
  address_text (ScAddress.account id) = c.strkey_ed25519 id.ed25519
  address_text (ScAddress.contract id) = c.strkey_contract id
  address_text (ScAddress.muxed_account id) = c.strkey_ed25519 id.ed25519
  address_text (ScAddress.claimable_balance hash) = c.hex_encode hash
  address_text (ScAddress.liquidity_pool pool) = c.hex_encode pool

  -- `serde_json::to_string(…).unwrap()`
  abbrev pub json_column : Option Text → ℕ → Outcome (FromScVal × ℕ)
  json_column o depth = do s ← unwrap o; ok (text_column s, depth)

  abbrev pub wide_column : ScVal → ℕ → Outcome (FromScVal × ℕ)
  wide_column v depth = do s ← num_to_string c v; ok (numeric_column s, depth)

  -- The end of the vector's branch, after the elements.
  unfoldable pub vec_column : OptVals → FromScVals → ℕ → Outcome (FromScVal × ℕ)
  unfolding array_column
  vec_column v inner_array depth = elim (array_column inner_array) [
    | some array ↦ ok (array, depth)
    | none ↦ json_column (c.json_vec v) depth
  ]

  -- The counter is one mutable number for the whole call: it comes back with the result, and a
  -- later element finds it as the earlier ones left it.
  unfoldable mutual
    unfolding vec_column address_text nat_text int_text num_to_string

    pub from_scval : ScVal → ℕ → Outcome (FromScVal × ℕ)
    from_scval (ScVal.bool b) depth = ok (FromScVal.column SqlType.bool (TypeKind.boolean b), depth)
    from_scval ScVal.void depth = ok (FromScVal.column SqlType.text TypeKind.void, depth)
    from_scval (ScVal.u32 n) depth = ok (numeric_column (nat_text n), depth)
    from_scval (ScVal.i32 n) depth = ok (numeric_column (int_text n), depth)
    from_scval (ScVal.u64 n) depth = ok (numeric_column (nat_text n), depth)
    from_scval (ScVal.i64 n) depth = ok (numeric_column (int_text n), depth)
    from_scval (ScVal.timepoint t) depth = ok (numeric_column (nat_text t), depth)
    from_scval (ScVal.duration d) depth = ok (numeric_column (nat_text d), depth)
    from_scval (ScVal.u256 p) depth = wide_column (ScVal.u256 p) depth
    from_scval (ScVal.i256 p) depth = wide_column (ScVal.i256 p) depth
    from_scval (ScVal.bytes b) depth =
        ok (FromScVal.column SqlType.bytea (TypeKind.text (c.hex_encode b)), depth)
    from_scval (ScVal.string s) depth = ok (text_column (c.string_text s), depth)
    from_scval (ScVal.symbol s) depth = ok (text_column (c.symbol_text s), depth)
    from_scval (ScVal.vec OptVals.no_vec) depth =
        json_column (c.json_vec OptVals.no_vec) (depth + 1)
    from_scval (ScVal.vec (OptVals.some_vec vecm)) depth =
        let inner = from_scvals vecm (depth + 1) in
        if ltb max_allowed_recursion_depth (depth + 1)
        then json_column (c.json_vec (OptVals.some_vec vecm)) (depth + 1)
        else (inner >>= λ r. vec_column (OptVals.some_vec vecm) r.0 r.1)
    from_scval (ScVal.map m) depth = json_column (c.json_map m) depth
    from_scval (ScVal.error e) depth = json_column (c.json_error e) depth
    from_scval (ScVal.address addr) depth = ok (text_column (address_text addr), depth)
    from_scval (ScVal.i128 p) depth = wide_column (ScVal.i128 p) depth
    from_scval (ScVal.u128 p) depth = wide_column (ScVal.u128 p) depth
    from_scval (ScVal.contract_instance _ _) depth = ok (text_column invalid_text, depth)
    from_scval ScVal.ledger_key_contract_instance depth = ok (text_column invalid_text, depth)
    from_scval (ScVal.other _) depth = ok (text_column invalid_text, depth)

    pub from_scvals : ScVals → ℕ → Outcome (FromScVals × ℕ)
    from_scvals ScVals.nil depth = ok (FromScVals.nil, depth)
    from_scvals (ScVals.cons v vs) depth = do
      (x, depth') ← from_scval v depth
      (xs, depth'') ← from_scvals vs depth'
      ok (FromScVals.cons x xs, depth'')
