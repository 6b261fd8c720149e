-- ===== src/State/Binaries/Replace.antt =====
-- The second loop of `replace_binaries` of retroshade/src/state.rs, and the whole call.
use mathlib.Core.Path.{fun_ext}
use retroshade.Base.{
  Bool, true, false, ◌&&◌, ◌||◌, not, List, [], ◌∷◌, map, Option, none, some, ltb, length, ◌≡◌,
  refl, sym, subst, ◌∙◌, inl, inr, Option-cases, arith,
}
use retroshade.Xdr.Value.{Bytes, Hash, Bytes-eq}
use retroshade.Xdr.Ledger.{LedgerEntry, LedgerEntryData}
use retroshade.Execution.{EntryWithLiveUntil, malformed_xdr, ok, err, RetroshadesExecution}
use retroshade.State.Reset.{u32_max}
use retroshade.State.Binaries.{Binaries, get, entry_replacement, replace_codes, replace_binaries}
use retroshade.State.Binaries.Swap.{
  instance_code, instance_wasm, or_else, last_code, all_contracts, binaries_mutation-get,
  binaries_mutation-err,
}

-- An entry with the code that a map gives for its hash.
unfoldable pub swap_data : (Hash → Option Bytes) → LedgerEntryData → LedgerEntryData
swap_data codes (LedgerEntryData.contract_code c) = elim (codes c.hash) [
  | none ↦ LedgerEntryData.contract_code c
  | some code ↦ LedgerEntryData.contract_code (record c { code = code })
]
swap_data codes d = d

unfoldable pub swap : (Hash → Option Bytes) → EntryWithLiveUntil → EntryWithLiveUntil
unfolding swap_data
swap codes (e, ttl) = (record e { payload = swap_data codes e.payload }, ttl)

is_swapped : (Hash → Option Bytes) → LedgerEntryData → Bool
is_swapped codes (LedgerEntryData.contract_code c) = elim (codes c.hash) [
  | none ↦ false
  | some _ ↦ true
]
is_swapped codes _ = false

unfoldable pub any_swapped : (Hash → Option Bytes) → List EntryWithLiveUntil → Bool
unfolding is_swapped
any_swapped codes [] = false
any_swapped codes ((e, _) ∷ es) = is_swapped codes e.payload || any_swapped codes es

-- Every code fits a `BytesM`.
unfoldable pub all_fit : Binaries → Bool
all_fit [] = true
all_fit ((_, code) ∷ m) = not (ltb u32_max (length code)) && all_fit m

abbrev AllFit : (Hash → Option Bytes) → Type 0
AllFit codes = (h : Hash) (code : Bytes) → codes h ≡ some code → ltb u32_max (length code) ≡ false

get-fits :
    (m : Binaries) (h : Hash) (code : Bytes)
    → all_fit m ≡ true
    → get m h ≡ some code
    → ltb u32_max (length code) ≡ false
unfolding all_fit get
get-fits [] h code f e = cc
get-fits ((k, c) ∷ m) h code f e = ground (arith, get-fits m h code)

entry_replacement-swap :
    (m : Binaries) (e : LedgerEntry) (d : LedgerEntryData) (replaced : Bool)
    → e.payload ≡ d
    → AllFit (get m)
    → entry_replacement m e d replaced
      ≡ ok (record e { payload = swap_data (get m) d }, replaced || is_swapped (get m) d)
unfolding entry_replacement swap_data is_swapped
entry_replacement-swap m e (LedgerEntryData.contract_code c) replaced q f =
    elim (Option-cases (get m c.hash)) [
      | inl n ↦ ground (arith, n, q)
      | inr (code, n) ↦ ground (arith, f c.hash code n)
    ]
entry_replacement-swap m e _ replaced q f = ground arith

replace_codes-map :
    (m : Binaries) (st : List EntryWithLiveUntil) (replaced : Bool)
    → AllFit (get m)
    → replace_codes m st replaced ≡ ok (map (swap (get m)) st, replaced || any_swapped (get m) st)
unfolding replace_codes swap any_swapped
replace_codes-map m [] replaced f = ground arith
replace_codes-map m ((e, ttl) ∷ es) replaced f =
    rw
      (
        entry_replacement-swap m e e.payload replaced refl f,
        replace_codes-map m es (replaced || is_swapped (get m) e.payload) f,
      )
      (ground arith)

last_code-fits :
    (mercury : Binaries) (st : List EntryWithLiveUntil)
    → all_fit mercury ≡ true
    → AllFit (last_code mercury st)
unfolding last_code instance_code
last_code-fits mercury [] f h code e = cc
last_code-fits mercury ((e, ttl) ∷ es) f h code q = elim (Option-cases (last_code mercury es h)) [
  | inl n ↦ instance_code-fits (rw n at q)
  | inr (c, n) ↦ last_code-fits mercury es f h code (ground arith)
]
  where
    instance_code-fits :
        instance_code mercury e.payload h ≡ some code → ltb u32_max (length code) ≡ false
    instance_code-fits r = elim (Option-cases (instance_wasm e.payload)) [
      | inl n ↦ ground arith
      | inr ((contract, wasm), n) ↦ ground (arith, get-fits mercury contract code f)
    ]

or_else-none : (a : Option Bytes) → or_else a none ≡ a
or_else-none none = refl
or_else-none (some c) = refl

-- On a state whose contract data stands under contracts, and with codes that fit a `BytesM`, the
-- call succeeds. Exactly the code entries whose hash a registered instance of the state names get
-- a new code, that of the last such instance; their lifetimes and all other entries stay, and the
-- answer tells whether there is such an entry.
pub replace_binaries-swap :
    (mercury : Binaries) (x : RetroshadesExecution)
    → all_contracts x.target_pre_execution_state ≡ true
    → all_fit mercury ≡ true
    → let codes = last_code mercury x.target_pre_execution_state in
      replace_binaries mercury x ≡ (
        ok (any_swapped codes x.target_pre_execution_state),
        record x { target_pre_execution_state = map (swap codes) x.target_pre_execution_state },
      )
unfolding replace_binaries get
replace_binaries-swap mercury x c f =
    let st = x.target_pre_execution_state in
    let (m, run, at) = binaries_mutation-get mercury st [] c in
    let same : get m ≡ last_code mercury st =
      fun_ext (λ h. at h ∙ or_else-none (last_code mercury st h)) in
    rw
      (
        run,
        replace_codes-map m st false (subst AllFit (sym same) (last_code-fits mercury st f)),
        same,
      )
      refl

-- A state with contract data under another kind of address is refused, and left as it was.
pub replace_binaries-err :
    (mercury : Binaries) (x : RetroshadesExecution)
    → all_contracts x.target_pre_execution_state ≡ false
    → replace_binaries mercury x ≡ (err malformed_xdr, x)
unfolding replace_binaries
replace_binaries-err mercury x c =
    rw (binaries_mutation-err mercury x.target_pre_execution_state [] c) refl
