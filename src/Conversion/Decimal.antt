-- ===== src/Conversion/Decimal.antt =====
-- The decimal texts that retroshade/src/conversion.rs writes for the numbers of 32 and 64 bits.
use native.Mathlib.Decide.{dec_lt}
use mathlib.Core.Logic.{dite}
use mathlib.Core.WellFounded.{Acc}
use retroshade.Base.{
  ℕ, zero, suc, ◌+◌, ◌-◌, ◌*◌, ◌/◌, ◌%◌, ◌<◌, ◌≤◌, Bool, true, false, ◌&&◌, not, List, [], ◌∷◌,
  ◌++◌, Option, none, some, ltb, if◌then◌else◌, ◌≡◌, ◌≢◌, refl, ap, ◌∙◌, inl, inr, Bool-cases,
  arith,
}
use retroshade.Base.Int.{ℤ, pos, negsuc}
use retroshade.Xdr.Value.{ScVal}
use retroshade.Execution.{ok}
use retroshade.Conversion.Codec.{Text, Codec}
use retroshade.Conversion.Number.{digits, every-Acc, nat_text, int_text}
use retroshade.Conversion.Value.{numeric_column, from_scval}

abbrev is_digit : ℕ → Bool
is_digit b = not (ltb b b'0') && ltb b 58

-- The number of a text of digits, after those that are read.
unfoldable pub read_from : ℕ → Text → Option ℕ
read_from acc [] = some acc
read_from acc (b ∷ bs) =
    let rest = read_from (acc * 10 + (b - b'0')) bs in if is_digit b then rest else none

abbrev pub negated : Option ℕ → Option ℤ
negated none = none
negated (some zero) = some (pos 0)
negated (some (suc n)) = some (negsuc n)

abbrev pub positive : Option ℕ → Option ℤ
positive none = none
positive (some n) = some (pos n)

abbrev is_minus : ℕ → Bool
is_minus b = ltb b 46 && ltb 44 b

-- A reader of decimal numbers: digits, with a minus sign or without.
unfoldable pub read_int : Text → Option ℤ
unfolding read_from
read_int [] = none
read_int (b ∷ bs) = if is_minus b then negated (read_from 0 bs) else positive (read_from 0 (b ∷ bs))

read_from-append :
    (acc v : ℕ) (xs ys : Text)
    → read_from acc xs ≡ some v
    → read_from acc (xs ++ ys) ≡ read_from v ys
unfolding read_from
read_from-append acc v [] ys h = let e : acc ≡ v = cc in ap (λ a. read_from a ys) e
read_from-append acc v (b ∷ bs) ys h = elim (Bool-cases (is_digit b)) [
  | inl d ↦ rw d (read_from-append (acc * 10 + (b - b'0')) v bs ys (rw d at h))
  | inr n ↦ let e : none ≡ some v = rw n at h in cc
]

read_from-digit : (acc d : ℕ) → d ≤ 9 → read_from acc ((b'0' + d) ∷ []) ≡ some (acc * 10 + d)
unfolding read_from
read_from-digit acc d h =
    let good : is_digit (b'0' + d) ≡ true = ground arith in rw good (ap some (omega arith))

dite-either {ℓ κ μ} :
    {P : Type ℓ} {C : Type κ} (Q : C → Type μ) (d : Dec P) (x : P → C) (y : ¬ P → C)
    → ((h : P) → Q (x h))
    → ((h : ¬ P) → Q (y h))
    → Q (dite d x y)
dite-either Q (yes p) x y f g = f p
dite-either Q (no n) x y f g = g n

read_from-digits : (n : ℕ) (a : Acc ◌<◌ n) → read_from 0 (digits n a) ≡ some n
unfolding digits
read_from-digits n (Acc.intro _ smaller) =
    dite-either (λ t. read_from 0 t ≡ some n) (dec_lt 9 n) _ _
      (λ h.
        read_from-append 0 (n / 10) _ _ (read_from-digits (n / 10) (smaller (n / 10) (omega arith)))
        ∙ read_from-digit (n / 10) (n % 10) (omega arith)
        ∙ ap some (omega arith))
      (λ h. read_from-digit 0 n (omega arith) ∙ ap some (omega arith))

append-ne {ℓ} : {A : Type ℓ} (xs : List A) (x : A) → xs ++ x ∷ [] ≢ []
append-ne [] x h = cc
append-ne (y ∷ ys) x h = cc

digits-ne : (n : ℕ) (a : Acc ◌<◌ n) → digits n a ≢ []
unfolding digits
digits-ne n (Acc.intro _ smaller) =
    dite-either (λ t. t ≢ []) (dec_lt 9 n) _ _ (λ h. append-ne _ _) (λ h e. cc)

-- A text that begins with a digit is no negative number.
read_int-positive : (t : Text) (n : ℕ) → t ≢ [] → read_from 0 t ≡ some n → read_int t ≡ some (pos n)
unfolding read_int read_from
read_int-positive [] n e h = absurd (e refl)
read_int-positive (b ∷ bs) n e h = elim (Bool-cases (is_digit b)) [
  | inl d ↦ let m : is_minus b ≡ false = ground arith in rw m (ap positive h)
  | inr d ↦ let bad : none ≡ some n = rw d at h in cc
]

read_int-nat_text : (n : ℕ) → read_int (nat_text n) ≡ some (pos n)
unfolding nat_text
read_int-nat_text n =
    read_int-positive (nat_text n) n (digits-ne n (every-Acc n)) (read_from-digits n (every-Acc n))

read_int-int_text : (z : ℤ) → read_int (int_text z) ≡ some z
unfolding int_text read_int nat_text
read_int-int_text (pos n) = read_int-nat_text n
read_int-int_text (negsuc n) =
    let one_more : n + 1 ≡ suc n = omega arith in
    ap negated (read_from-digits (n + 1) (every-Acc (n + 1))) ∙ ap (λ m. negated (some m)) one_more

-- The number of a value of at most 64 bits.
abbrev pub machine_value : ScVal → Option ℤ
machine_value (ScVal.u32 n) = some (pos n)
machine_value (ScVal.i32 n) = some n
machine_value (ScVal.u64 n) = some (pos n)
machine_value (ScVal.i64 n) = some n
machine_value (ScVal.timepoint n) = some (pos n)
machine_value (ScVal.duration n) = some (pos n)
machine_value _ = none

-- The conversion of a number of at most 64 bits, signed or unsigned, succeeds, and a reader of
-- decimal numbers gets the number back from the text of its numeric column.
pub from_scval-read_int :
    (c : Codec) (v : ScVal) (z : ℤ) (depth : ℕ)
    → machine_value v ≡ some z
    → (t : Text) × (from_scval c v depth ≡ ok (numeric_column t, depth)) × (read_int t ≡ some z)
unfolding from_scval
from_scval-read_int c (ScVal.u32 n) z depth h = (nat_text n, refl, read_int-nat_text n ∙ h)
from_scval-read_int c (ScVal.i32 n) z depth h = (int_text n, refl, read_int-int_text n ∙ h)
from_scval-read_int c (ScVal.u64 n) z depth h = (nat_text n, refl, read_int-nat_text n ∙ h)
from_scval-read_int c (ScVal.i64 n) z depth h = (int_text n, refl, read_int-int_text n ∙ h)
from_scval-read_int c (ScVal.timepoint n) z depth h = (nat_text n, refl, read_int-nat_text n ∙ h)
from_scval-read_int c (ScVal.duration n) z depth h = (nat_text n, refl, read_int-nat_text n ∙ h)
from_scval-read_int c _ z depth h = cc
