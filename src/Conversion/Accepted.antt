-- ===== src/Conversion/Accepted.antt =====
-- The types of the columns that `accepts` of retroshade/src/conversion.rs takes.
use retroshade.Base.{ℕ, Bool, true, false, not, ◌≡◌, refl, inl, inr, ap, ◌∙◌, arith}
use retroshade.Xdr.Value.{ScVal}
use retroshade.Conversion.Codec.{Codec}
use retroshade.Conversion.Value.{
  SqlType, SqlType-eq, TypeKind, FromScVal, FromScVals, dbtype, kind, array_type, from_scval,
}
use retroshade.Conversion.Sql.{accepts}
use retroshade.Conversion.Shape.{Succeeds, Returns, is_scalar, is_array, from_scval-ColumnFrom}

abbrev pub is_numeric : TypeKind → Bool
is_numeric (TypeKind.numeric _) = true
is_numeric _ = false

-- A number, or an array that begins with one.
unfoldable pub has_numbers : FromScVal → Bool
has_numbers (FromScVal.column t (TypeKind.generic_array (FromScVals.cons x xs))) =
    is_numeric (kind x)
has_numbers (FromScVal.column t k) = is_numeric k

scalar-accepts : (x : FromScVal) → is_scalar x ≡ true → accepts (dbtype x) ≡ not (has_numbers x)
unfolding is_scalar accepts has_numbers
scalar-accepts (FromScVal.column SqlType.bool (TypeKind.boolean b)) s = refl
scalar-accepts (FromScVal.column SqlType.numeric (TypeKind.numeric n)) s = refl
scalar-accepts (FromScVal.column SqlType.text (TypeKind.text t)) s = refl
scalar-accepts (FromScVal.column SqlType.text TypeKind.void) s = refl
scalar-accepts (FromScVal.column SqlType.bytea (TypeKind.text t)) s = refl
scalar-accepts _ s = cc

array_type-accepts : (k : TypeKind) → accepts (array_type k) ≡ not (is_numeric k)
unfolding array_type accepts
array_type-accepts (TypeKind.boolean b) = refl
array_type-accepts (TypeKind.numeric n) = refl
array_type-accepts (TypeKind.text t) = refl
array_type-accepts TypeKind.void = refl
array_type-accepts (TypeKind.generic_array xs) = refl

array-accepts : (x : FromScVal) → is_array x ≡ true → accepts (dbtype x) ≡ not (has_numbers x)
unfolding is_array has_numbers
array-accepts (FromScVal.column t (TypeKind.generic_array (FromScVals.cons x xs))) h =
    ap accepts ((SqlType-eq.eqb_iff t (array_type (kind x))).0 (ground arith))
    ∙ array_type-accepts (kind x)
array-accepts _ h = cc

-- If the encoders work: of the columns that a conversion makes, `accepts` takes the type of those
-- without numbers, and refuses the type of every number and of every array of numbers.
pub from_scval-accepts :
    (c : Codec) (works : Succeeds c) (v : ScVal) (depth : ℕ)
    → Returns (from_scval c v depth) (λ r. accepts (dbtype r.0) ≡ not (has_numbers r.0))
from_scval-accepts c works v depth =
    let ((x, d), e, (_, shape)) = from_scval-ColumnFrom c works v depth in
    ((x, d), e, elim shape [ inl s ↦ scalar-accepts x s | inr a ↦ array-accepts x a.1 ])
