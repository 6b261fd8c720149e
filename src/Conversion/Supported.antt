-- ===== src/Conversion/Supported.antt =====
-- What `to_sql` of retroshade/src/conversion.rs hands on of the columns that `from_scval` makes.
use retroshade.Base.{
  ℕ, ◌⊎◌, Option-cases, Bool, Bool-cases, true, false, List, [], ◌∷◌, none, some, ◌==◌, ◌≡◌, refl,
  sym, subst, inl, inr, arith,
}
use retroshade.Xdr.Value.{ScVal}
use retroshade.Conversion.Codec.{Text, Codec}
use retroshade.Conversion.Value.{
  SqlType, SqlType-eq, TypeKind, FromScVal, FromScVals, dbtype, kind, all_same, array_type,
  from_scval,
}
use retroshade.Conversion.Sql.{
  Floats, SqlParam, accepts, to_sql, to_sql_checked, array_to_sql, filter_map, bool_of, text_of,
  float_or_zero, float_of,
}
use retroshade.Conversion.Shape.{
  Succeeds, Returns, is_scalar, all_scalar, is_array, from_scval-ColumnFrom,
}

bool_scalar :
    (x : FromScVal)
    → is_scalar x ≡ true
    → dbtype x ≡ SqlType.bool
    → (b : Bool) × (kind x ≡ TypeKind.boolean b)
unfolding is_scalar
bool_scalar (FromScVal.column SqlType.bool (TypeKind.boolean b)) s h = (b, refl)
bool_scalar _ s h = cc

number_scalar :
    (x : FromScVal)
    → is_scalar x ≡ true
    → dbtype x ≡ SqlType.numeric
    → (n : Text) × (kind x ≡ TypeKind.numeric n)
unfolding is_scalar
number_scalar (FromScVal.column SqlType.numeric (TypeKind.numeric n)) s h = (n, refl)
number_scalar _ s h = cc

text_scalar :
    (x : FromScVal)
    → is_scalar x ≡ true
    → (dbtype x ≡ SqlType.text) ⊎ (dbtype x ≡ SqlType.bytea)
    → (kind x ≡ TypeKind.void) ⊎ ((s : Text) × (kind x ≡ TypeKind.text s))
unfolding is_scalar
text_scalar (FromScVal.column SqlType.text (TypeKind.text t)) s h = inr (t, refl)
text_scalar (FromScVal.column SqlType.text TypeKind.void) s h = inl refl
text_scalar (FromScVal.column SqlType.bytea (TypeKind.text t)) s h = inr (t, refl)
text_scalar (FromScVal.column t k) s (inl h) = cc
text_scalar (FromScVal.column t k) s (inr h) = cc

module _ (f : Floats) where
  -- The Booleans of the elements, each of which is one.
  abbrev BoolsOf : FromScVals → List Bool → Type 0
  BoolsOf FromScVals.nil [] = Unit
  BoolsOf (FromScVals.cons x xs) (b ∷ bs) = (kind x ≡ TypeKind.boolean b) × BoolsOf xs bs
  BoolsOf _ _ = ⊥

  -- The float of a decimal text, or zero if the text is not read.
  abbrev IsFloat : Text → f.F64 → Type 0
  IsFloat n x = (f.parse n ≡ some x) ⊎ ((f.parse n ≡ none) × (x ≡ f.zero))

  -- The floats of the elements, each of which is a number.
  abbrev FloatsOf : FromScVals → List f.F64 → Type 0
  FloatsOf FromScVals.nil [] = Unit
  FloatsOf (FromScVals.cons x xs) (y ∷ ys) =
      ((n : Text) × (kind x ≡ TypeKind.numeric n) × IsFloat n y) × FloatsOf xs ys
  FloatsOf _ _ = ⊥

  -- The texts of the elements, without those that are void.
  abbrev TextsOf : FromScVals → List Text → Type 0
  TextsOf FromScVals.nil ts = ts ≡ []
  TextsOf (FromScVals.cons x xs) ts =
      ((kind x ≡ TypeKind.void) × TextsOf xs ts)
      ⊎ ((s : Text) × ((rest : List Text) × (kind x ≡ TypeKind.text s)
            × (ts ≡ s ∷ rest)
            × TextsOf xs rest))

  -- What is handed on of a column under a type: its own value.
  abbrev pub IsHandedOn : SqlType → FromScVal → SqlParam f.F64 → Type 0
  IsHandedOn ty (FromScVal.column t (TypeKind.generic_array xs)) (SqlParam.bools ty' bs) =
      (ty' ≡ ty) × (t ≡ SqlType.bool_array) × BoolsOf xs bs
  IsHandedOn ty (FromScVal.column t (TypeKind.generic_array xs)) (SqlParam.floats ty' ys) =
      (ty' ≡ ty) × (t ≡ SqlType.numeric_array) × FloatsOf xs ys
  IsHandedOn ty (FromScVal.column t (TypeKind.generic_array xs)) (SqlParam.texts ty' ts) =
      (ty' ≡ ty) × (t ≡ SqlType.text_array) × TextsOf xs ts
  IsHandedOn ty (FromScVal.column t (TypeKind.text s)) (SqlParam.text ty' s') =
      (ty' ≡ ty) × ((t ≡ SqlType.text) ⊎ (t ≡ SqlType.bytea)) × (s' ≡ s)
  IsHandedOn ty (FromScVal.column t (TypeKind.boolean b)) (SqlParam.bool ty' b') =
      (ty' ≡ ty) × (t ≡ SqlType.bool) × (b' ≡ b)
  IsHandedOn ty (FromScVal.column t TypeKind.void) SqlParam.null = t ≡ SqlType.text
  IsHandedOn ty (FromScVal.column t (TypeKind.numeric n)) (SqlParam.float ty' x) =
      (ty' ≡ ty) × (t ≡ SqlType.numeric) × IsFloat n x
  IsHandedOn _ _ _ = ⊥

  -- A type that is not accepted is an error, whatever the column is.
  abbrev pub IsChecked : SqlType → FromScVal → SqlParam f.F64 → Type 0
  IsChecked ty x p =
      ((accepts ty ≡ true) × IsHandedOn ty x p) ⊎ ((accepts ty ≡ false) × (p ≡ SqlParam.wrong_type))

  float_or_zero-IsFloat : (n : Text) → IsFloat n (float_or_zero f n)
  float_or_zero-IsFloat n = elim (Option-cases (f.parse n)) [
    | inl e ↦ inr (e, rw (e, float_or_zero) refl)
    | inr (x, e) ↦ inl (rw (e, float_or_zero) refl)
  ]

  -- Elements of one type, of which each is kept.
  bools_of :
      (xs : FromScVals)
      → all_scalar xs ≡ true
      → all_same SqlType.bool xs ≡ true
      → BoolsOf xs (filter_map bool_of xs)
  unfolding filter_map all_scalar all_same
  bools_of FromScVals.nil s h = tt
  bools_of (FromScVals.cons x xs) s h =
      let (b, e) =
        bool_scalar x (ground arith)
          ((SqlType-eq.eqb_iff (dbtype x) SqlType.bool).0 (ground arith)) in
      rw (e, filter_map) (e, bools_of xs (ground arith) (ground arith))

  floats_of :
      (xs : FromScVals)
      → all_scalar xs ≡ true
      → all_same SqlType.numeric xs ≡ true
      → FloatsOf xs (filter_map (float_of f) xs)
  unfolding filter_map all_scalar all_same
  floats_of FromScVals.nil s h = tt
  floats_of (FromScVals.cons x xs) s h =
      let (n, e) =
        number_scalar x (ground arith)
          ((SqlType-eq.eqb_iff (dbtype x) SqlType.numeric).0 (ground arith)) in
      rw (e, filter_map)
        ((n, e, float_or_zero-IsFloat n), floats_of xs (ground arith) (ground arith))

  texts_of :
      (t : SqlType) (xs : FromScVals)
      → (t ≡ SqlType.text) ⊎ (t ≡ SqlType.bytea)
      → all_scalar xs ≡ true
      → all_same t xs ≡ true
      → TextsOf xs (filter_map text_of xs)
  unfolding filter_map all_scalar all_same
  texts_of t FromScVals.nil q s h = refl
  texts_of t (FromScVals.cons x xs) q s h =
      let same = (SqlType-eq.eqb_iff (dbtype x) t).0 (ground arith) in
      let rest = texts_of t xs q (ground arith) (ground arith) in
      elim (text_scalar x (ground arith)
        (subst (λ u. (u ≡ SqlType.text) ⊎ (u ≡ SqlType.bytea)) (sym same) q)) [
          | inl e ↦
              let run : filter_map text_of (FromScVals.cons x xs) ≡ filter_map text_of xs =
                rw (e, filter_map) refl in
              inl (e, subst (TextsOf xs) (sym run) rest)
          | inr (s', e) ↦ inr (s', (filter_map text_of xs, e, rw (e, filter_map) refl, rest))
        ]

  scalar-IsHandedOn :
      (ty : SqlType) (x : FromScVal) → is_scalar x ≡ true → IsHandedOn ty x (to_sql f x ty)
  unfolding is_scalar to_sql
  scalar-IsHandedOn ty (FromScVal.column SqlType.bool (TypeKind.boolean b)) s = (refl, refl, refl)
  scalar-IsHandedOn ty (FromScVal.column SqlType.numeric (TypeKind.numeric n)) s =
      (refl, refl, float_or_zero-IsFloat n)
  scalar-IsHandedOn ty (FromScVal.column SqlType.text (TypeKind.text t)) s = (refl, inl refl, refl)
  scalar-IsHandedOn ty (FromScVal.column SqlType.text TypeKind.void) s = refl
  scalar-IsHandedOn ty (FromScVal.column SqlType.bytea (TypeKind.text t)) s = (refl, inr refl, refl)
  scalar-IsHandedOn ty _ s = cc

  -- What `is_array` says of the first element.
  array-IsHandedOn :
      (ty t : SqlType) (x : FromScVal) (xs : FromScVals)
      → t ≡ array_type (kind x)
      → (t == SqlType.text) ≡ false
      → is_scalar x ≡ true
      → all_same (dbtype x) (FromScVals.cons x xs) ≡ true
      → all_scalar (FromScVals.cons x xs) ≡ true
      → IsHandedOn ty
          (FromScVal.column t (TypeKind.generic_array (FromScVals.cons x xs)))
          (to_sql f (FromScVal.column t (TypeKind.generic_array (FromScVals.cons x xs))) ty)
  unfolding to_sql array_to_sql array_type is_scalar
  array-IsHandedOn ty t (FromScVal.column SqlType.bool (TypeKind.boolean b)) xs e n sx same s =
      rw e (refl, refl, bools_of _ s same)
  array-IsHandedOn ty t (FromScVal.column SqlType.numeric (TypeKind.numeric b)) xs e n sx same s =
      rw e (refl, refl, floats_of _ s same)
  array-IsHandedOn ty t (FromScVal.column SqlType.text (TypeKind.text b)) xs e n sx same s =
      rw e (refl, refl, texts_of SqlType.text _ (inl refl) s same)
  array-IsHandedOn ty t (FromScVal.column SqlType.bytea (TypeKind.text b)) xs e n sx same s =
      rw e (refl, refl, texts_of SqlType.bytea _ (inr refl) s same)
  array-IsHandedOn ty t (FromScVal.column SqlType.text TypeKind.void) xs e n sx same s =
      ground (arith, SqlType-eq.eqb_iff t SqlType.text)
  array-IsHandedOn ty t _ xs e n sx same s = cc

  column-IsHandedOn :
      (ty : SqlType) (x : FromScVal) → is_array x ≡ true → IsHandedOn ty x (to_sql f x ty)
  unfolding is_array all_scalar
  column-IsHandedOn ty (FromScVal.column t (TypeKind.generic_array (FromScVals.cons x xs))) h =
      array-IsHandedOn ty t x xs ((SqlType-eq.eqb_iff t (array_type (kind x))).0 (ground arith))
        (ground arith) (ground arith) (ground arith) (ground arith)
  column-IsHandedOn ty _ h = cc

  handed-IsChecked :
      (ty : SqlType) (x : FromScVal)
      → IsHandedOn ty x (to_sql f x ty)
      → IsChecked ty x (to_sql_checked f x ty)
  unfolding to_sql_checked
  handed-IsChecked ty x h = elim (Bool-cases (accepts ty)) [
    | inl e ↦ rw e (inl (refl, h))
    | inr e ↦ rw e (inr (refl, refl))
  ]

  -- If the encoders work, what is made of a value is handed on to the database under any type that
  -- `accepts` takes, whatever the value is and never as an unsupported array; a type that it does
  -- not take is the error of a wrong type. A scalar is handed on as it is, and a number as the float
  -- of its text, or zero if the text is not read as a float. An array of Booleans or of numbers is
  -- handed on with each of its elements in order, and one of texts with its texts in order and
  -- without its voids.
  pub to_sql-IsHandedOn :
      (c : Codec) (works : Succeeds c) (v : ScVal) (depth : ℕ) (ty : SqlType)
      → Returns (from_scval c v depth) (λ r. IsChecked ty r.0 (to_sql_checked f r.0 ty))
  to_sql-IsHandedOn c works v depth ty =
      let ((x, d), e, (_, shape)) = from_scval-ColumnFrom c works v depth in
      let handed : IsHandedOn ty x (to_sql f x ty) = elim shape [
        | inl s ↦ scalar-IsHandedOn ty x s
        | inr a ↦ column-IsHandedOn ty x a.1
      ] in
      ((x, d), e, handed-IsChecked ty x handed)
