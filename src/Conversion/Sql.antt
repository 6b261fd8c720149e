-- ===== src/Conversion/Sql.antt =====
-- retroshade/src/conversion.rs: `ToSql` for a column. The value that is handed on to postgres-types,
-- with the type of the parameter of the query, is a `SqlParam`; floats and their parser are the
-- parameter `Floats`. `to_sql_checked!` is the macro of postgres-types that asks `accepts` first.
use retroshade.Base.{Bool, true, false, List, [], ◌∷◌, Option, none, some, if◌then◌else◌}
use retroshade.Conversion.Codec.{Text}
use retroshade.Conversion.Value.{SqlType, TypeKind, FromScVal, FromScVals, kind}

pub record Floats : Type 1 where
  pub F64 : Type 0
  pub parse : Text → Option F64
  pub zero : F64

pub data SqlParam (F64 : Type 0) : Type 0 where
  -- The value's own `to_sql` is called under a type.
  bools : SqlType → List Bool → SqlParam F64
  floats : SqlType → List F64 → SqlParam F64
  texts : SqlType → List Text → SqlParam F64
  text : SqlType → Text → SqlParam F64
  bool : SqlType → Bool → SqlParam F64
  float : SqlType → F64 → SqlParam F64
  -- `IsNull::Yes`, and the two errors.
  null : SqlParam F64
  unsupported_array_type : SqlParam F64
  wrong_type : SqlParam F64

unfoldable pub accepts : SqlType → Bool
accepts SqlType.bool = true
accepts SqlType.text = true
accepts SqlType.float8 = true
accepts SqlType.bytea = true
accepts SqlType.bool_array = true
accepts SqlType.text_array = true
accepts SqlType.float8_array = true
accepts _ = false

-- `filter_map` over the elements.
unfoldable pub filter_map {ℓ} : {B : Type ℓ} → (TypeKind → Option B) → FromScVals → List B
filter_map f FromScVals.nil = []
filter_map f (FromScVals.cons x xs) =
    let rest = filter_map f xs in elim (f (kind x)) [ none ↦ rest | some b ↦ b ∷ rest ]

abbrev pub bool_of : TypeKind → Option Bool
bool_of (TypeKind.boolean b) = some b
bool_of _ = none

abbrev pub text_of : TypeKind → Option Text
text_of (TypeKind.text s) = some s
text_of _ = none

module _ (f : Floats) where
  open f use {F64, parse, zero}

  -- `n.parse().unwrap_or(0.0)`
  abbrev pub float_or_zero : Text → F64
  float_or_zero n = elim (parse n) [ none ↦ zero | some x ↦ x ]

  abbrev pub float_of : TypeKind → Option F64
  float_of (TypeKind.numeric n) = some (float_or_zero n)
  float_of _ = none

  unfoldable pub array_to_sql : SqlType → FromScVals → SqlType → SqlParam F64
  unfolding filter_map
  array_to_sql SqlType.bool_array arr ty = SqlParam.bools ty (filter_map bool_of arr)
  array_to_sql SqlType.numeric_array arr ty = SqlParam.floats ty (filter_map float_of arr)
  array_to_sql SqlType.text_array arr ty = SqlParam.texts ty (filter_map text_of arr)
  array_to_sql _ arr ty = SqlParam.unsupported_array_type

  unfoldable pub to_sql : FromScVal → SqlType → SqlParam F64
  unfolding array_to_sql
  to_sql (FromScVal.column t (TypeKind.generic_array arr)) ty = array_to_sql t arr ty
  to_sql (FromScVal.column t (TypeKind.text s)) ty = SqlParam.text ty s
  to_sql (FromScVal.column t (TypeKind.boolean b)) ty = SqlParam.bool ty b
  to_sql (FromScVal.column t TypeKind.void) ty = SqlParam.null
  to_sql (FromScVal.column t (TypeKind.numeric n)) ty = SqlParam.float ty (float_or_zero n)

  unfoldable pub to_sql_checked : FromScVal → SqlType → SqlParam F64
  unfolding to_sql accepts
  to_sql_checked x ty = if accepts ty then to_sql x ty else SqlParam.wrong_type
