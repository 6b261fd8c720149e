-- ===== src/Contracts/Hello/Row.antt =====
-- The event of examples/hello_world/src/lib.rs as a row for the database.
use retroshade.Base.{ℕ, ◌<◌, ◌^◌, false, List, [], ◌∷◌, ◌++◌, some, ◌≡◌, refl, arith}
use retroshade.Base.Int.{pos}
use retroshade.Xdr.Value.{Hash, ScAddress, ScVal, ScVals, OptVals, ScMap, OptMap}
use retroshade.Execution.{ok, DiagnosticEvent}
use retroshade.Conversion.Codec.{Codec, Text}
use retroshade.Conversion.Value.{
  SqlType, SqlType-discrete, TypeKind, FromScVal, FromScVals, numeric_column, text_column,
  from_scval, address_text,
}
use retroshade.Conversion.Wide.{BigIntLaws, from_scval-wide_value}
use retroshade.Export.{
  PackedEventEntry, retroshade_prepare_for_db, pack_retroshades, pack_retroshade, pack_entries,
  symbol_name, event_map, first_failed,
}
use retroshade.Contracts.Env.{Env}
use retroshade.Contracts.Hello.{FirstRetroshade, test1, t}

abbrev amount_name : Text
amount_name = b'a' ∷ b'm' ∷ b'o' ∷ b'u' ∷ b'n' ∷ b't' ∷ []

abbrev somev_name : Text
somev_name = b's' ∷ b'o' ∷ b'm' ∷ b'e' ∷ b'v' ∷ []

abbrev test_name : Text
test_name = b't' ∷ b'e' ∷ b's' ∷ b't' ∷ []

abbrev pub addresses : List ScAddress → ScVals
addresses [] = ScVals.nil
addresses (a ∷ rest) = ScVals.cons (ScVal.address a) (addresses rest)

-- The value of a struct under `#[contracttype]`: a map from the names of its fields, sorted. The
-- amount is not negative and below 2 ^ 64.
abbrev pub event_value : ScAddress → ℕ → List ScAddress → ScVal
event_value test amount somev = ScVal.map (
    OptMap.some_map (
      ScMap.entry (ScVal.symbol amount_name) (ScVal.i128 (record { hi = pos 0; lo = amount })) (
        ScMap.entry (ScVal.symbol somev_name) (ScVal.vec (OptVals.some_vec (addresses somev)))
          (ScMap.entry (ScVal.symbol test_name) (ScVal.address test) ScMap.end))))

-- What soroban-sdk documents of the conversion, for such amounts.
abbrev pub Converts : (FirstRetroshade → ScVal) → Type 0
Converts into_val =
    (e : FirstRetroshade) (n : ℕ)
    → e.amount ≡ pos n
    → n < 2 ^ 64
    → into_val e ≡ event_value e.test n e.somev

module _ (c : Codec) where
  -- The columns: a number, an array of one text, and a text.
  abbrev pub columns : Text → Text → List PackedEventEntry
  columns amount self =
      record { name = c.symbol_text amount_name; value = numeric_column amount }
      ∷ record {
        name = c.symbol_text somev_name;
        value =
            FromScVal.column SqlType.text_array
              (TypeKind.generic_array (FromScVals.cons (text_column self) FromScVals.nil));
      }
      ∷ record { name = c.symbol_text test_name; value = text_column self }
      ∷ []

  vec-column :
      (a : ScAddress)
      → from_scval c (ScVal.vec (OptVals.some_vec (addresses (a ∷ [])))) 0
        ≡ ok (
          FromScVal.column SqlType.text_array (
              TypeKind.generic_array
                (FromScVals.cons (text_column (address_text c a)) FromScVals.nil)),
          1,
        )
  unfolding from_scval SqlType-discrete
  vec-column a = refl

  module _ (laws : BigIntLaws c) where
    -- If the big integers obey their laws and the conversion of the event is the documented one: a
    -- call of `t` emits once, and the export that carries this emission becomes one row, after
    -- whatever successful events. Its table is `test1`, and its columns are the decimal text of the
    -- big integer 990, an array with the text of the contract's address, and that text.
    pub t-row :
        (into_val : FirstRetroshade → ScVal) (env : Env) (id : Hash) (events : List DiagnosticEvent)
        → Converts into_val
        → first_failed events ≡ false
        → (event : ScVal) × (b : c.BigInt) × (t into_val env
            ≡ some (tt, record env { emitted = env.emitted ++ (test1, event) ∷ [] }))
          × (laws.value b ≡ pos 990)
          × (retroshade_prepare_for_db c (record {
            retroshades = record { contract_id = id; target = test1; event_object = event } ∷ [];
            diagnostic = events;
          })
              ≡ ok (record {
                retroshades =
                    record {
                      contract_id = c.strkey_contract id;
                      target = c.symbol_text (b't' ∷ b'e' ∷ b's' ∷ b't' ∷ b'1' ∷ []);
                      event =
                          columns (c.bigint_text b) (address_text c env.current_contract_address);
                    }
                    ∷ [];
                diagnostic = events;
              }))
    unfolding t retroshade_prepare_for_db pack_retroshades pack_retroshade pack_entries symbol_name
        event_map from_scval
    t-row into_val env id events converts ran =
        let self = env.current_contract_address in
        let e : FirstRetroshade = record { test = self; amount = pos 990; somev = self ∷ [] } in
        let made = converts e 990 refl (omega arith) in
        let (b, value, run) =
          from_scval-wide_value c laws (ScVal.i128 (record { hi = pos 0; lo = 990 })) (pos 990) 0
            refl (omega arith) in
        (into_val e, b, refl, value, rw (ran, made, run, vec-column self) refl)
