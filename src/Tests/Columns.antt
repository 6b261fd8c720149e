-- ===== src/Tests/Columns.antt =====
-- Rows and columns, with encoders that keep the bytes.
use native.Mathlib.Decide.{dec_lt}
use retroshade.Base.{
  ℕ, ◌-◌, ◌^◌, List, [], ◌∷◌, Option, none, some, Bool, true, not, ◌≡◌, refl, ap, ◌∙◌, inr, arith,
  if◌then◌else◌,
}
use retroshade.Base.Int.{ℤ, pos, negsuc, ◌*ℕ◌, ◌+ℕ◌}
use retroshade.Xdr.Value.{ScVal, ScVals, OptVals, ScMap, OptMap}
use retroshade.Execution.{
  ok, err, ◌>>=◌, malformed_retroshade_event, non_successful_contract_call, RetroshadeExport,
  RetroshadeExecutionResult,
}
use retroshade.Conversion.Codec.{Text, Codec}
use retroshade.Conversion.Value.{
  SqlType, TypeKind, FromScVal, FromScVals, SqlType-discrete, from_scval, numeric_column, dbtype,
}
use retroshade.Conversion.Sql.{Floats, SqlParam, to_sql, to_sql_checked, accepts}
use retroshade.Conversion.Shape.{Succeeds, Returns, ColumnFrom, from_scval-ColumnFrom}
use retroshade.Conversion.Voids.{items, present, to_sql-drops_voids}
use retroshade.Conversion.Decimal.{read_int, from_scval-read_int}
use retroshade.Conversion.Accepted.{has_numbers, from_scval-accepts}
use retroshade.Conversion.Supported.{IsChecked, to_sql-IsHandedOn}
use retroshade.Conversion.Wide.{BigIntLaws, from_scval-wide_value}
use retroshade.Export.{retroshade_prepare_for_db, first_failed}
use retroshade.Export.Rows.{PacksAll, all_rows, prepare-rows, prepare-err}

-- The low operand has no bit of the high one.
abbrev or_low : ℤ → ℤ → ℤ
or_low a (pos n) = a +ℕ n
or_low a (negsuc n) = a

abbrev pub plain : Codec
plain = record {
  hex_encode = λ b. b;
  strkey_ed25519 = λ h. b'G' ∷ h;
  strkey_contract = λ h. b'C' ∷ h;
  string_text = λ s. s;
  symbol_text = λ s. s;
  json_vec = λ _. some (b'[' ∷ b']' ∷ []);
  json_map = λ _. some (b'{' ∷ b'}' ∷ []);
  json_error = λ e. some e;
  BigInt = ℤ;
  from_i64 = λ n. some n;
  from_u64 = λ n. some (pos n);
  shl = λ a k. a *ℕ 2 ^ k;
  bitor = or_low;
  bigint_text = λ _. [];
}

pub plain-Succeeds : Succeeds plain
plain-Succeeds = record {
  json_vec = λ _. (b'[' ∷ b']' ∷ [], refl);
  json_map = λ _. (b'{' ∷ b'}' ∷ [], refl);
  json_error = λ e. (e, refl);
  from_i64 = λ n. (n, refl);
  from_u64 = λ n. (pos n, refl);
}

abbrev pub numbers : ScVal
numbers =
    ScVal.vec (OptVals.some_vec (ScVals.cons (ScVal.u32 1) (ScVals.cons (ScVal.u32 20) ScVals.nil)))

from_scval-ColumnFrom_example : Returns (from_scval plain numbers 0) (ColumnFrom 0)
from_scval-ColumnFrom_example = from_scval-ColumnFrom plain plain-Succeeds numbers 0

numeric_array :
    from_scval plain numbers 0
    ≡ ok (
      FromScVal.column SqlType.numeric_array (
          TypeKind.generic_array (
            FromScVals.cons (FromScVal.column SqlType.numeric (TypeKind.numeric (b'1' ∷ []))) (
              FromScVals.cons
                (FromScVal.column SqlType.numeric (TypeKind.numeric (b'2' ∷ b'0' ∷ [])))
                FromScVals.nil))),
      1,
    )
unfolding from_scval SqlType-discrete dec_lt
numeric_array = refl

-- Floats that are read from one byte alone.
abbrev parse_digit : Text → Option ℕ
parse_digit (d ∷ []) = some d
parse_digit _ = none

abbrev pub unit_floats : Floats
unit_floats = record { F64 = ℕ; parse = parse_digit; zero = 0 }

to_sql-drops_voids_example :
    (from_scval plain (ScVal.vec (OptVals.some_vec (items (some (b'a' ∷ []) ∷ none ∷ [])))) 0
      >>= λ r. ok (to_sql unit_floats r.0 SqlType.text_array))
    ≡ ok (SqlParam.texts SqlType.text_array (present plain (some (b'a' ∷ []) ∷ none ∷ [])))
to_sql-drops_voids_example =
    to_sql-drops_voids plain unit_floats SqlType.text_array (b'a' ∷ []) (none ∷ [])

abbrev pub export : RetroshadeExport
export = record {
  contract_id = 7 ∷ [];
  target = ScVal.symbol (b't' ∷ []);
  event_object =
      ScVal.map (OptMap.some_map (ScMap.entry (ScVal.symbol (b'n' ∷ [])) numbers ScMap.end));
}

abbrev run_of : Bool → List RetroshadeExport → RetroshadeExecutionResult
run_of successful exports = record {
  retroshades = exports;
  diagnostic = record { in_successful_contract_call = successful; event = [] } ∷ [];
}

prepare-rows_example : Returns (retroshade_prepare_for_db plain (run_of true (export ∷ []))) (λ p.
    (p.diagnostic ≡ (run_of true (export ∷ [])).diagnostic)
    × PacksAll plain (export ∷ []) p.retroshades)
unfolding first_failed all_rows
prepare-rows_example = prepare-rows plain plain-Succeeds (run_of true (export ∷ [])) refl refl

abbrev nameless : RetroshadeExport
nameless = record export { target = ScVal.void }

prepare-err_example :
    retroshade_prepare_for_db plain (run_of true (export ∷ nameless ∷ []))
    ≡ err (
        if first_failed (run_of true (export ∷ nameless ∷ [])).diagnostic
        then non_successful_contract_call (run_of true (export ∷ nameless ∷ [])).diagnostic
        else malformed_retroshade_event)
unfolding all_rows
prepare-err_example =
    prepare-err plain plain-Succeeds (run_of true (export ∷ nameless ∷ [])) (inr refl)

abbrev pub plain_laws : BigIntLaws plain
plain_laws = record {
  value = λ n. n;
  from_i64 = λ n. (n, refl, refl);
  from_u64 = λ n _. (pos n, refl, refl);
  shl = λ b k. refl;
  bitor = λ a b z k n ea eb _. ap (λ y. or_low a y) eb ∙ ap (λ y. y +ℕ n) ea;
}

-- -2 ^ 192 + 3.
abbrev negative : ScVal
negative = ScVal.i256 (record { hi_hi = negsuc 0; hi_lo = 0; lo_hi = 0; lo_lo = 3 })

abbrev negative_value : ℤ
negative_value = (negsuc 0 *ℕ 2 ^ 64 +ℕ 0) *ℕ 2 ^ 128 +ℕ 3

from_scval-wide_value_example :
    (b : ℤ) × (b ≡ negative_value)
    × (from_scval plain negative 0 ≡ ok (numeric_column (plain.bigint_text b), 0))
from_scval-wide_value_example =
    from_scval-wide_value plain plain_laws negative negative_value 0 refl
      (omega arith, omega arith, omega arith)

-- The least number of 64 bits.
abbrev least : ℤ
least = negsuc (2 ^ 63 - 1)

from_scval-read_int_example :
    (t : Text) × (from_scval plain (ScVal.i64 least) 0 ≡ ok (numeric_column t, 0))
    × (read_int t ≡ some least)
from_scval-read_int_example = from_scval-read_int plain (ScVal.i64 least) least 0 refl

to_sql-IsHandedOn_example : Returns (from_scval plain numbers 0) (λ r.
    IsChecked unit_floats SqlType.float8_array r.0
      (to_sql_checked unit_floats r.0 SqlType.float8_array))
to_sql-IsHandedOn_example =
    to_sql-IsHandedOn unit_floats plain plain-Succeeds numbers 0 SqlType.float8_array

from_scval-accepts_example :
    Returns (from_scval plain numbers 0) (λ r. accepts (dbtype r.0) ≡ not (has_numbers r.0))
from_scval-accepts_example = from_scval-accepts plain plain-Succeeds numbers 0
