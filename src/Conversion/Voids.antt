-- ===== src/Conversion/Voids.antt =====
-- A vector of texts and voids, from `from_scval` to `to_sql` of retroshade/src/conversion.rs.
use retroshade.Base.{ℕ, true, List, [], ◌∷◌, Option, none, some, ◌≡◌, refl, ap, arith}
use retroshade.Xdr.Value.{Bytes, ScVal, ScVals, OptVals}
use retroshade.Execution.{ok, ◌>>=◌}
use retroshade.Conversion.Codec.{Text, Codec}
use retroshade.Conversion.Value.{
  SqlType, SqlType-eq, TypeKind, FromScVal, FromScVals, all_same, array_column, vec_column,
  from_scval, from_scvals,
}
use retroshade.Conversion.Sql.{Floats, SqlParam, to_sql, filter_map, text_of}

-- A text for `some`, and a void for `none`.
item : Option Bytes → ScVal
item none = ScVal.void
item (some s) = ScVal.string s

unfoldable pub items : List (Option Bytes) → ScVals
unfolding item
items [] = ScVals.nil
items (o ∷ os) = ScVals.cons (item o) (items os)

module _ (c : Codec) where
  cell : Option Bytes → FromScVal
  cell none = FromScVal.column SqlType.text TypeKind.void
  cell (some s) = FromScVal.column SqlType.text (TypeKind.text (c.string_text s))

  cells : List (Option Bytes) → FromScVals
  unfolding cell
  cells [] = FromScVals.nil
  cells (o ∷ os) = FromScVals.cons (cell o) (cells os)

  -- The texts alone.
  unfoldable pub present : List (Option Bytes) → List Text
  present [] = []
  present (none ∷ os) = present os
  present (some s ∷ os) = c.string_text s ∷ present os

  from_scvals-items :
      (os : List (Option Bytes)) (depth : ℕ) → from_scvals c (items os) depth ≡ ok (cells os, depth)
  unfolding from_scval items cells
  from_scvals-items [] depth = refl
  from_scvals-items (none ∷ os) depth = rw (from_scvals-items os depth)
  from_scvals-items (some s ∷ os) depth = rw (from_scvals-items os depth)

  all_same-cells : (os : List (Option Bytes)) → all_same SqlType.text (cells os) ≡ true
  unfolding all_same cells
  all_same-cells [] = refl
  all_same-cells (none ∷ os) =
      ground (arith, SqlType-eq.eqb_iff SqlType.text SqlType.text, all_same-cells os)
  all_same-cells (some s ∷ os) =
      ground (arith, SqlType-eq.eqb_iff SqlType.text SqlType.text, all_same-cells os)

  filter_map-cells : (os : List (Option Bytes)) → filter_map text_of (cells os) ≡ present os
  unfolding filter_map cells present
  filter_map-cells [] = refl
  filter_map-cells (none ∷ os) = filter_map-cells os
  filter_map-cells (some s ∷ os) = rw (filter_map-cells os) refl

  from_scval-vec :
      (vs : ScVals)
      → from_scval c (ScVal.vec (OptVals.some_vec vs)) 0
        ≡ (from_scvals c vs 1 >>= λ r. vec_column c (OptVals.some_vec vs) r.0 r.1)
  unfolding from_scval
  from_scval-vec vs = refl

  vec_column-cells :
      (v : OptVals) (s : Bytes) (os : List (Option Bytes))
      → vec_column c v (cells (some s ∷ os)) 1
        ≡ ok (FromScVal.column SqlType.text_array (TypeKind.generic_array (cells (some s ∷ os))), 1)
  unfolding vec_column cells
  vec_column-cells v s os = rw (array_column-cells, vec_column) refl
    where
      array_column-cells :
          array_column (cells (some s ∷ os))
          ≡ some
              (FromScVal.column SqlType.text_array (TypeKind.generic_array (cells (some s ∷ os))))
      array_column-cells =
          ground (
            arith,
            all_same-cells (some s ∷ os),
            SqlType-eq.eqb_iff SqlType.text_array SqlType.text,
          )

  pub to_sql-drops_voids :
      (f : Floats) (ty : SqlType) (s : Bytes) (os : List (Option Bytes))
      → (from_scval c (ScVal.vec (OptVals.some_vec (items (some s ∷ os)))) 0 >>= λ r.
          ok (to_sql f r.0 ty))
        ≡ ok (SqlParam.texts ty (present (some s ∷ os)))
  unfolding to_sql
  to_sql-drops_voids f ty s os =
      rw
        (
          from_scval-vec (items (some s ∷ os)),
          from_scvals-items (some s ∷ os) 1,
          vec_column-cells _ s os,
        )
        (ap (λ ts. ok (SqlParam.texts ty ts)) (filter_map-cells (some s ∷ os)))
