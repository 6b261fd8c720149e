-- ===== src/Export/Rows.antt =====
-- What `retroshade_prepare_for_db` of retroshade/src/lib.rs returns, on every branch.
use retroshade.Base.{
  Bool, true, false, ◌&&◌, List, [], ◌∷◌, if◌then◌else◌, ◌≡◌, ◌⊎◌, refl, inl, inr, Bool-cases,
  arith,
}
use retroshade.Xdr.Value.{ScVal, ScMap, OptMap}
use retroshade.Execution.{
  RetroshadeError, Outcome, ok, err, panic, ◌>>=◌, malformed_retroshade_event,
  non_successful_contract_call, RetroshadeExport, RetroshadeExecutionResult,
}
use retroshade.Conversion.Codec.{Codec}
use retroshade.Conversion.Value.{from_scval}
use retroshade.Conversion.Shape.{
  Succeeds, Returns, Returns-bind, Returns-ok, Returns-self, ColumnFrom, from_scval-ColumnFrom,
}
use retroshade.Export.{
  PackedEventEntry, RetroshadeExportPretty, symbol_name, event_map, pack_entries, pack_retroshade,
  pack_retroshades, first_failed, retroshade_prepare_for_db,
}

unfoldable pub is_symbol : ScVal → Bool
is_symbol (ScVal.symbol _) = true
is_symbol _ = false

unfoldable pub symbol_keys : ScMap → Bool
unfolding is_symbol
symbol_keys ScMap.end = true
symbol_keys (ScMap.entry key _ rest) = is_symbol key && symbol_keys rest

unfoldable pub is_event : ScVal → Bool
unfolding symbol_keys
is_event (ScVal.map (OptMap.some_map m)) = symbol_keys m
is_event _ = false

-- A row for the database: a map whose keys are symbols, for a target that is one.
unfoldable pub is_row : RetroshadeExport → Bool
unfolding is_event is_symbol
is_row r = is_event r.event_object && is_symbol r.target

unfoldable pub all_rows : List RetroshadeExport → Bool
unfolding is_row
all_rows [] = true
all_rows (r ∷ rs) = is_row r && all_rows rs

module _ (c : Codec) where
  -- The columns are the entries of the map in their order: the name of a column is the text of the
  -- key, and its value is the conversion of the value.
  abbrev pub PacksEntries : ScMap → List PackedEventEntry → Type 0
  PacksEntries ScMap.end [] = Unit
  PacksEntries ScMap.end (_ ∷ _) = ⊥
  PacksEntries (ScMap.entry _ _ _) [] = ⊥
  PacksEntries (ScMap.entry key val m) (e ∷ es) =
      (symbol_name c key ≡ ok e.name)
      × Returns (from_scval c val 0) (λ r. r.0 ≡ e.value)
      × PacksEntries m es

  pub record Packs (r : RetroshadeExport) (p : RetroshadeExportPretty) : Type 0 where
    pub contract : p.contract_id ≡ c.strkey_contract r.contract_id
    pub table : symbol_name c r.target ≡ ok p.target
    pub entries : ScMap
    pub object : event_map r.event_object ≡ ok entries
    pub columns : PacksEntries entries p.event

  -- One row for each export, in their order.
  abbrev pub PacksAll : List RetroshadeExport → List RetroshadeExportPretty → Type 0
  PacksAll [] [] = Unit
  PacksAll [] (_ ∷ _) = ⊥
  PacksAll (_ ∷ _) [] = ⊥
  PacksAll (r ∷ rs) (p ∷ ps) = Packs r p × PacksAll rs ps

  symbol_name-Returns :
      (v : ScVal) → is_symbol v ≡ true → Returns (symbol_name c v) (λ t. symbol_name c v ≡ ok t)
  unfolding symbol_name is_symbol
  symbol_name-Returns (ScVal.symbol s) h = (_, refl, refl)
  symbol_name-Returns _ h = cc

  symbol_name-err :
      (v : ScVal) → is_symbol v ≡ false → symbol_name c v ≡ err malformed_retroshade_event
  unfolding symbol_name is_symbol
  symbol_name-err (ScVal.symbol s) h = cc
  symbol_name-err _ h = refl

  event_map-Returns :
      (v : ScVal)
      → is_event v ≡ true
      → Returns (event_map v) (λ m. (event_map v ≡ ok m) × (symbol_keys m ≡ true))
  unfolding event_map is_event
  event_map-Returns (ScVal.map (OptMap.some_map m)) h = (m, refl, (refl, h))
  event_map-Returns (ScVal.map OptMap.no_map) h = cc
  event_map-Returns _ h = cc

bind-err {ℓ κ μ} :
    {A : Type ℓ} {B : Type κ} {C : Type μ} (o : Outcome A) (f : A → Outcome B) (g : B → Outcome C)
    {e : RetroshadeError}
    → (o >>= f) ≡ err e
    → (o >>= λ a. f a >>= g) ≡ err e
bind-err (ok a) f g h = rw h refl
bind-err (err e) f g h = cc
bind-err panic f g h = cc

module _ (c : Codec) (works : Succeeds c) where
  conversion : (v : ScVal) → Returns (from_scval c v 0) (ColumnFrom 0)
  conversion v = from_scval-ColumnFrom c works v 0

  pack_entries-Returns :
      (m : ScMap) → symbol_keys m ≡ true → Returns (pack_entries c m) (PacksEntries c m)
  unfolding pack_entries symbol_keys
  pack_entries-Returns ScMap.end h = Returns-ok _ tt
  pack_entries-Returns (ScMap.entry key val m) h =
      Returns-bind _ _ (symbol_name-Returns c key (ground arith)) λ t e.
        Returns-bind _ _ (Returns-self (conversion val)) λ v f.
          Returns-bind _ _ (pack_entries-Returns m (ground arith))
            λ es rest. Returns-ok _ (e, (v, f, refl), rest)

  pack_entries-err :
      (m : ScMap) → symbol_keys m ≡ false → pack_entries c m ≡ err malformed_retroshade_event
  unfolding pack_entries symbol_keys
  pack_entries-err ScMap.end h = cc
  pack_entries-err (ScMap.entry key val m) h = elim (Bool-cases (is_symbol key)) [
    | inl good ↦
        let (t, e, _) = symbol_name-Returns c key good in
        let (v, f, _) = conversion val in rw (e, f, pack_entries-err m (rw good at h)) refl
    | inr bad ↦ rw (symbol_name-err c key bad) refl
  ]

  pack_event-err :
      (v : ScVal)
      → is_event v ≡ false
      → (event_map v >>= pack_entries c) ≡ err malformed_retroshade_event
  unfolding event_map is_event
  pack_event-err (ScVal.map (OptMap.some_map m)) h = pack_entries-err m h
  pack_event-err (ScVal.map OptMap.no_map) h = refl
  pack_event-err _ h = refl

  pack_retroshade-Returns :
      (r : RetroshadeExport) → is_row r ≡ true → Returns (pack_retroshade c r) (Packs c r)
  unfolding pack_retroshade is_row
  pack_retroshade-Returns r h =
      Returns-bind _ _ (event_map-Returns c r.event_object (ground arith)) λ m e.
        Returns-bind _ _ (pack_entries-Returns m e.1) λ es columns.
          Returns-bind _ _ (symbol_name-Returns c r.target (ground arith)) λ t table.
            Returns-ok _ (record {
              contract = refl;
              table = table;
              entries = m;
              object = e.0;
              columns = columns;
            })

  pack_retroshade-err :
      (r : RetroshadeExport)
      → is_row r ≡ false
      → pack_retroshade c r ≡ err malformed_retroshade_event
  unfolding pack_retroshade is_row
  pack_retroshade-err r h = elim (Bool-cases (is_event r.event_object)) [
    | inl good ↦
        let (m, e, both) = event_map-Returns c r.event_object good in
        let (es, f, _) = pack_entries-Returns m both.1 in
        rw (e, f, symbol_name-err c r.target (rw good at h)) refl
    | inr bad ↦ bind-err (event_map r.event_object) _ _ (pack_event-err r.event_object bad)
  ]

  pack_retroshades-Returns :
      (rs : List RetroshadeExport)
      → all_rows rs ≡ true
      → Returns (pack_retroshades c rs) (PacksAll c rs)
  unfolding pack_retroshades all_rows
  pack_retroshades-Returns [] h = Returns-ok _ tt
  pack_retroshades-Returns (r ∷ rs) h =
      Returns-bind _ _ (pack_retroshade-Returns r (ground arith)) λ p one.
        Returns-bind _ _ (pack_retroshades-Returns rs (ground arith))
          λ ps rest. Returns-ok _ (one, rest)

  pack_retroshades-err :
      (rs : List RetroshadeExport)
      → all_rows rs ≡ false
      → pack_retroshades c rs ≡ err malformed_retroshade_event
  unfolding pack_retroshades all_rows
  pack_retroshades-err [] h = cc
  pack_retroshades-err (r ∷ rs) h = elim (Bool-cases (is_row r)) [
    | inl good ↦
        let (p, e, _) = pack_retroshade-Returns r good in
        rw (e, pack_retroshades-err rs (rw good at h)) refl
    | inr bad ↦ rw (pack_retroshade-err r bad) refl
  ]

  -- If the encoders work: an execution whose first diagnostic event lies in a successful call, or
  -- that has none, and whose exports all are maps with symbols for keys, each for a symbol as its
  -- target, becomes one row for each export, in order: the contract's text, the target's text, and
  -- a column for each entry of the map, in order, with the text of the key and the conversion of
  -- the value. The diagnostic events are passed on.
  pub prepare-rows :
      (exec : RetroshadeExecutionResult)
      → first_failed exec.diagnostic ≡ false
      → all_rows exec.retroshades ≡ true
      → Returns
          (retroshade_prepare_for_db c exec)
          (λ p. (p.diagnostic ≡ exec.diagnostic) × PacksAll c exec.retroshades p.retroshades)
  unfolding retroshade_prepare_for_db
  prepare-rows exec ran rows = rw ran (
      Returns-bind _ _ (pack_retroshades-Returns exec.retroshades rows)
        λ ps all. Returns-ok _ (refl, all))

  pub prepare-err :
      (exec : RetroshadeExecutionResult)
      → (first_failed exec.diagnostic ≡ true) ⊎ (all_rows exec.retroshades ≡ false)
      → retroshade_prepare_for_db c exec
        ≡ err (
            if first_failed exec.diagnostic
            then non_successful_contract_call exec.diagnostic
            else malformed_retroshade_event)
  unfolding retroshade_prepare_for_db
  prepare-err exec h = elim (Bool-cases (first_failed exec.diagnostic)) [
    | inl failed ↦ rw failed refl
    | inr ran ↦ rw (ran, pack_retroshades-err exec.retroshades (ground arith)) refl
  ]
