-- ===== src/Tests/Standalone.antt =====
-- The standalone binary over a small database, and its `main`.
use native.Mathlib.Decide.{ℕ_discrete}
use retroshade.Base.{
  Bool, true, false, List, [], ◌∷◌, Option, none, some, ◌==◌, ◌≡◌, ◌≢◌, refl, inl, inr, Bool-cases,
}
use retroshade.Xdr.Value.{
  ScVal, ScAddress-eq, ScVal-eq, ScAddress-discrete, Bytes-discrete, ScVal-discrete,
}
use retroshade.Xdr.Ledger.{LedgerEntry, LedgerEntryData, LedgerKey, ContractDataDurability}
use retroshade.Conversion.Codec.{Text}
use retroshade.Execution.{EntryWithLiveUntil, ok, HostResult, SnapshotSource, RetroshadeExport, new}
use retroshade.Ledger.{Ledger}
use retroshade.Ledger.Load.{Serves}
use retroshade.Svm.Calls.{Invocation}
use retroshade.Retroshade.{build_from_envelope_and_meta}
use retroshade.Retroshade.Ready.{IsReady, invocation_context}
use retroshade.Retroshade.Run.{Encodes, host_answer}
use retroshade.Standalone.Database.{Query, Db}
use retroshade.Standalone.{
  get, get_trustline, get_account, get_code, get_data, trust_row, code_row, data_row, row_entry,
  get_ttl,
}
use retroshade.Standalone.Answers.{
  Durabilities, Tables, Selects, IsRow, Encodings, Lifetime, Mirrors, ledger_answer, get-Mirrors,
}
use retroshade.Standalone.Lifetimes.{HasTrustlines, Answers, get-IsReady}
use retroshade.State.Build.{build_current_state}
use retroshade.Standalone.Loads.{build_current_state-Answers}
use retroshade.Standalone.Durability.{get-ne-Serves}
use retroshade.Standalone.Main.{Constants, subject, fixed_state, main, printed, main-host_answer}
use retroshade.Tests.Data.{
  this_contract, persistent_key, before, update_meta, soroban_data, invocation, invoke_operation,
  envelope,
}
use retroshade.Tests.Running.{echo, echo-Writes, echo-Reads, envelope-Invokes}

abbrev counter_name : ScVal
counter_name = ScVal.symbol (b'c' ∷ [])

abbrev lifetime_entry : LedgerEntry
lifetime_entry = record {
  last_modified_ledger_seq = 1;
  payload = LedgerEntryData.ttl (record { key_hash = 2 ∷ []; live_until_ledger_seq = 100 });
  ext = [];
}

-- One row of contract data, `true`, and one lifetime, `false`.
abbrev row_text : Bool → Text
row_text true = 1 ∷ []
row_text false = []

abbrev text_entry : Text → LedgerEntry
text_entry [] = lifetime_entry
text_entry (_ ∷ _) = before

abbrev flag_text : Bool → Text
flag_text true = 1 ∷ []
flag_text false = []

abbrev data_rows : Text → Text → Option Bool
data_rows (_ ∷ _) (_ ∷ _) = some true
data_rows _ _ = none

abbrev rows : Query → Option (Option Bool)
rows (Query.ttl _) = some (some false)
rows (Query.contract_data owner key) = some (data_rows owner key)
rows _ = some none

abbrev small_db : Db
small_db = record {
  Row = Bool;
  query = rows;
  get_text = λ row. some (row_text row);
  get_i32 = λ _ _. none;
  get_i64 = λ _ _. none;
  key_to_xdr = λ _. some (2 ∷ []);
  sha256 = λ b. b;
  hash_to_base64 = λ h. some h;
  asset_to_base64 = λ a. some a;
  address_to_base64 = λ a. some (flag_text (a == this_contract));
  value_to_base64 = λ v. some (flag_text (v == counter_name));
  entry_from_base64 = λ t. some (text_entry t);
  strkey_ed25519 = λ h. h;
  account_rest = λ _. [];
}

abbrev found : Bool → Bool → Option LedgerEntry
found true true = some before
found _ _ = none

abbrev small_ledger : Ledger
small_ledger (LedgerKey.contract_data k) = elim k.durability [
  | ContractDataDurability.persistent ↦ found (k.contract == this_contract) (k.key == counter_name)
  | ContractDataDurability.temporary ↦ none
]
small_ledger _ = none

abbrev all_persistent : Durabilities
all_persistent _ _ = ContractDataDurability.persistent

abbrev small_texts : Text → Text → Option Text
small_texts (_ ∷ _) (_ ∷ _) = some (1 ∷ [])
small_texts _ _ = none

abbrev small_tables : Tables
small_tables = record {
  trustlines = λ _ _. none;
  contractcode = λ _. none;
  contractdata = small_texts;
  ttl = λ _. some [];
}

small-Selects : Selects small_db small_tables
small-Selects = record {
  trustlines = λ _ _. refl;
  contractcode = λ _. refl;
  contractdata = data_rows-small_texts;
  ttl = λ _. (false, refl, refl);
}
  where
    data_rows-small_texts :
        (owner key : Text)
        → IsRow small_db (small_texts owner key) (small_db.query (Query.contract_data owner key))
    data_rows-small_texts [] key = refl
    data_rows-small_texts (_ ∷ _) [] = refl
    data_rows-small_texts (_ ∷ _) (_ ∷ _) = (true, refl, refl)

small_encodings : Encodings small_db
small_encodings = record {
  asset = λ a. a;
  hash = λ h. h;
  address = λ a. flag_text (a == this_contract);
  value = λ v. flag_text (v == counter_name);
  key = λ _. 2 ∷ [];
  asset_to_base64 = λ _. refl;
  hash_to_base64 = λ _. refl;
  address_to_base64 = λ _. refl;
  value_to_base64 = λ _. refl;
  key_to_xdr = λ _. refl;
}

small_lifetime : Lifetime small_db 100
small_lifetime = record {
  entry = lifetime_entry;
  ttl = record { key_hash = 2 ∷ []; live_until_ledger_seq = 100 };
  is_ttl = refl;
  lives_until = refl;
}

small-Mirrors : Mirrors small_db small_ledger (λ _. 100) all_persistent
unfolding small_encodings small_lifetime
small-Mirrors = record {
  tables = small_tables;
  selects = small-Selects;
  encodings = small_encodings;
  trustlines = λ k. tt;
  codes = λ k. tt;
  datas = λ k h. elim (Bool-cases (k.contract == this_contract)) [
    | inl p ↦ elim (Bool-cases (k.key == counter_name)) [
      | inl q ↦ rw (h, p, q) refl
      | inr q ↦ rw (h, p, q) tt
    ]
    | inr p ↦ rw (h, p) tt
  ];
  ttls = λ k e _ _. (small_lifetime, refl);
}

get-Mirrors_example :
    get small_db persistent_key
    ≡ ok (HostResult.ok (ledger_answer small_ledger (λ _. 100) persistent_key))
get-Mirrors_example =
    get-Mirrors small_db small_ledger (λ _. 100) all_persistent persistent_key small-Mirrors refl

small_answer :
    (k : LedgerKey) → (r : HostResult (Option EntryWithLiveUntil)) × (get small_db k ≡ ok r)
unfolding get get_trustline get_account get_code get_data trust_row code_row data_row row_entry
    get_ttl
small_answer (LedgerKey.trustline k) = (HostResult.ok none, refl)
small_answer (LedgerKey.account k) = (HostResult.ok none, refl)
small_answer (LedgerKey.contract_code k) = (HostResult.ok none, refl)
small_answer (LedgerKey.contract_data k) = elim (Bool-cases (k.contract == this_contract)) [
  | inl p ↦ elim (Bool-cases (k.key == counter_name)) [
    | inl q ↦ rw (p, q) (HostResult.ok (some (before, some 100)), refl)
    | inr q ↦ rw (p, q) (HostResult.ok none, refl)
  ]
  | inr p ↦ rw p (HostResult.ok none, refl)
]
small_answer (LedgerKey.other k) = (HostResult.ok none, refl)

abbrev small_source : SnapshotSource
small_source k = (small_answer k).0

small-Answers : Answers small_db small_source
small-Answers k = (small_answer k).1

small-HasTrustlines : HasTrustlines small_db
unfolding trust_row
small-HasTrustlines k row e h r = cc

get-IsReady_example :
    IsReady
      (invocation_context envelope soroban_data invoke_operation invocation [])
      (build_from_envelope_and_meta small_source envelope update_meta [] (new [])).1
get-IsReady_example =
    get-IsReady small_db small_source envelope update_meta [] [] small-Answers small-HasTrustlines
      envelope-Invokes

build_current_state-Answers_example : (build_current_state small_source envelope (new [])).0 ≡ ok tt
build_current_state-Answers_example =
    build_current_state-Answers small_db small_source envelope (new []) small-Answers
      envelope-Invokes

other_durability : ContractDataDurability.persistent ≢ ContractDataDurability.temporary
other_durability h = cc

get-ne-Serves_example : ¬ Serves small_source small_ledger
unfolding ScAddress-discrete Bytes-discrete ℕ_discrete ScVal-discrete
get-ne-Serves_example =
    get-ne-Serves small_db this_contract counter_name ContractDataDurability.persistent
      ContractDataDurability.temporary small_source small_ledger before other_durability
      small-Answers refl

abbrev constants : Constants
constants = record { host_function = 1 ∷ []; limits = []; fee = []; ledger_info = [] }

-- "[]" for no exports.
abbrev exports_json : List RetroshadeExport → Option Text
exports_json [] = some (b'[' ∷ b']' ∷ [])
exports_json (_ ∷ _) = none

main-host_answer_example :
    (i : Invocation) × Encodes echo (subject constants) (fixed_state (3 ∷ [])) (4 ∷ []) i
    × (main echo exports_json (4 ∷ []) constants (some (3 ∷ []))
        ≡ printed exports_json (host_answer echo i))
main-host_answer_example =
    main-host_answer echo echo-Writes exports_json (4 ∷ []) constants (3 ∷ []) echo-Reads refl
