-- ===== src/State/Build/Footprint.antt =====
-- Where `load_footprint`, the loop of `build_current_state` in retroshade/src/state.rs, stops.
use mathlib.Core.List.{append_assoc, append-nil}
use retroshade.Base.{List, [], ◌∷◌, ◌++◌, none, some, ◌≡◌, ◌⊎◌, refl, ap, sym, ◌∙◌, inl, inr}
use retroshade.Xdr.Ledger.{LedgerKey}
use retroshade.Xdr.Value.{Opaque}
use retroshade.Execution.{
  EntryWithLiveUntil, svm_host, ok, err, HostResult, HostResult-cases, SnapshotSource,
  RetroshadesExecution, Step,
}
use retroshade.State.Build.{load_footprint, push_entry}

-- The source answers every one of the keys, and these are the entries that it has, in the order of
-- the keys.
abbrev pub Fetches : SnapshotSource → List LedgerKey → List EntryWithLiveUntil → Type 0
Fetches s [] es = es ≡ []
Fetches s (k ∷ ks) es =
    ((s k ≡ HostResult.ok none) × Fetches s ks es)
    ⊎ ((e : EntryWithLiveUntil) × (rest : List EntryWithLiveUntil) × (s k ≡ HostResult.ok (some e))
        × (es ≡ e ∷ rest)
        × Fetches s ks rest)

-- The first key that the source refuses, and the error.
pub record Refuses (s : SnapshotSource) (keys : List LedgerKey) : Type 0 where
  pub before : List LedgerKey
  pub key : LedgerKey
  pub behind : List LedgerKey
  pub host_error : Opaque
  pub split : keys ≡ before ++ key ∷ behind
  pub entries : List EntryWithLiveUntil
  pub fetched : Fetches s before entries
  pub refused : s key ≡ HostResult.err host_error

-- The object with some entries behind those that it has.
abbrev pub with_entries : List EntryWithLiveUntil → RetroshadesExecution → RetroshadesExecution
with_entries es x = record x { target_pre_execution_state = x.target_pre_execution_state ++ es }

with_entries-push :
    (e : EntryWithLiveUntil) (es : List EntryWithLiveUntil) (x : RetroshadesExecution)
    → with_entries es (push_entry (some e) x) ≡ with_entries (e ∷ es) x
unfolding push_entry
with_entries-push e es x =
    ap (λ st. record x { target_pre_execution_state = st })
      (append_assoc x.target_pre_execution_state (e ∷ []) es)

module _ (s : SnapshotSource) where
  -- Loading some keys: the entries of the source are appended, of all keys or of those before the
  -- first that it refuses.
  abbrev pub Stops : List LedgerKey → RetroshadesExecution → Step (Unit {0}) → Type 0
  Stops keys x step =
      ((es : List EntryWithLiveUntil) × Fetches s keys es × (step ≡ (ok tt, with_entries es x)))
      ⊎ ((r : Refuses s keys) × (step ≡ (err (svm_host r.host_error), with_entries r.entries x)))

  refuses_first :
      (k : LedgerKey) (ks : List LedgerKey) (e : Opaque)
      → s k ≡ HostResult.err e
      → Refuses s (k ∷ ks)
  refuses_first k ks e q = record {
    before = [];
    key = k;
    behind = ks;
    host_error = e;
    split = refl;
    entries = [];
    fetched = refl;
    refused = q;
  }

  refuses_later :
      (k : LedgerKey) (ks : List LedgerKey) (r : Refuses s ks) (es : List EntryWithLiveUntil)
      → Fetches s (k ∷ r.before) es
      → Refuses s (k ∷ ks)
  refuses_later k ks r es f = record {
    before = k ∷ r.before;
    key = r.key;
    behind = r.behind;
    host_error = r.host_error;
    split = ap (λ js. k ∷ js) r.split;
    entries = es;
    fetched = f;
    refused = r.refused;
  }

  pub load_footprint-Stops :
      (keys : List LedgerKey) (x : RetroshadesExecution) → Stops keys x (load_footprint s keys x)
  unfolding load_footprint push_entry refuses_first refuses_later
  load_footprint-Stops [] x = inl (
    [],
    refl,
    ap (λ st. (ok tt, record x { target_pre_execution_state = st }))
        (sym (append-nil x.target_pre_execution_state)),
  )
  load_footprint-Stops (k ∷ ks) x = elim (HostResult-cases (s k)) [
    | inl (none, q) ↦ elim (load_footprint-Stops ks x) [
      | inl (es, f, e) ↦ inl (es, inl (q, f), rw (q, load_footprint) e)
      | inr (r, e) ↦
          inr (refuses_later k ks r r.entries (inl (q, r.fetched)), rw (q, load_footprint) e)
    ]
    | inl (some y, q) ↦ elim (load_footprint-Stops ks (push_entry (some y) x)) [
      | inl (es, f, e) ↦ inl (
        y ∷ es,
        inr (y, es, q, refl, f),
        rw (q, load_footprint) (e ∙ ap (λ z. (ok tt, z)) (with_entries-push y es x)),
      )
      | inr (r, e) ↦ inr (
        refuses_later k ks r (y ∷ r.entries) (inr (y, r.entries, q, refl, r.fetched)),
        rw (q, load_footprint)
            (e ∙ ap (λ z. (err (svm_host r.host_error), z)) (with_entries-push y r.entries x)),
      )
    ]
    | inr (e, q) ↦ inr (
      refuses_first k ks e q,
      rw (q, load_footprint)
          (ap (λ st. (err (svm_host e), record x { target_pre_execution_state = st }))
            (sym (append-nil x.target_pre_execution_state))),
    )
  ]
