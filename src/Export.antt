-- ===== src/Export.antt =====
-- retroshade/src/lib.rs: `retroshade_prepare_for_db`, which turns the exports of an execution into
-- rows of named columns. The loops push to a vector; here they build it in its order.
pub mod Rows
use retroshade.Base.{Bool, false, not, List, [], ◌∷◌, if◌then◌else◌}
use retroshade.Xdr.Value.{ScVal, ScMap, OptMap}
use retroshade.Execution.{
  Outcome, ok, err, ◌>>=◌, malformed_retroshade_event, non_successful_contract_call,
  DiagnosticEvent, RetroshadeExport, RetroshadeExecutionResult,
}
use retroshade.Conversion.Codec.{Text, Codec}
use retroshade.Conversion.Value.{FromScVal, from_scval}

pub record PackedEventEntry : Type 0 where
  pub name : Text
  pub value : FromScVal

pub record RetroshadeExportPretty : Type 0 where
  pub contract_id : Text
  pub target : Text
  pub event : List PackedEventEntry

pub record RetroshadeExecutionResultPretty : Type 0 where
  pub retroshades : List RetroshadeExportPretty
  pub diagnostic : List DiagnosticEvent

-- Only the first diagnostic event is looked at.
unfoldable pub first_failed : List DiagnosticEvent → Bool
first_failed [] = false
first_failed (first ∷ _) = not first.in_successful_contract_call

unfoldable pub event_map : ScVal → Outcome ScMap
event_map (ScVal.map (OptMap.some_map m)) = ok m
event_map _ = err malformed_retroshade_event

module _ (c : Codec) where
  -- `if let ScVal::Symbol(symbol) = … { symbol.to_string() } else { return Err(…) }`
  unfoldable pub symbol_name : ScVal → Outcome Text
  symbol_name (ScVal.symbol s) = ok (c.symbol_text s)
  symbol_name _ = err malformed_retroshade_event

  -- The loop over the entries of one event; each value starts with a counter of its own.
  unfoldable pub pack_entries : ScMap → Outcome (List PackedEventEntry)
  unfolding symbol_name
  pack_entries ScMap.end = ok []
  pack_entries (ScMap.entry key val rest) = do
    name ← symbol_name key
    (value, _) ← from_scval c val 0
    entries ← pack_entries rest
    ok (record { name = name; value = value } ∷ entries)

  unfoldable pub pack_retroshade : RetroshadeExport → Outcome RetroshadeExportPretty
  unfolding event_map pack_entries
  pack_retroshade retroshade = do
    map_entry ← event_map retroshade.event_object
    packed_event_entries ← pack_entries map_entry
    target ← symbol_name retroshade.target
    ok (record {
      contract_id = c.strkey_contract retroshade.contract_id;
      target = target;
      event = packed_event_entries;
    })

  unfoldable pub pack_retroshades : List RetroshadeExport → Outcome (List RetroshadeExportPretty)
  unfolding pack_retroshade
  pack_retroshades [] = ok []
  pack_retroshades (r ∷ rs) = do
    pretty ← pack_retroshade r
    pretties ← pack_retroshades rs
    ok (pretty ∷ pretties)

  unfoldable pub retroshade_prepare_for_db :
      RetroshadeExecutionResult → Outcome RetroshadeExecutionResultPretty
  unfolding first_failed pack_retroshades
  retroshade_prepare_for_db retroshade_exec =
      if first_failed retroshade_exec.diagnostic
      then err (non_successful_contract_call retroshade_exec.diagnostic)
      else do
        pretty_retroshades ← pack_retroshades retroshade_exec.retroshades
        ok (record { retroshades = pretty_retroshades; diagnostic = retroshade_exec.diagnostic })
