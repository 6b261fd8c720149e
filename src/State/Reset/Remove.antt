-- ===== src/State/Reset/Remove.antt =====
-- `remove_entry`: its two loops over indices are a filter.
use mathlib.Core.List.{append_assoc, append-nil}
use retroshade.Base.{
  ℕ, ◌+◌, Bool, true, false, ◌||◌, List, [], ◌∷◌, ◌++◌, if◌then◌else◌, length, length-append, ◌≡◌,
  refl, ap, inl, inr, Bool-cases, arith,
}
use retroshade.Xdr.Ledger.{LedgerEntry}
use retroshade.Execution.{EntryWithLiveUntil, ok}
use retroshade.State.Reset.{
  Tracked, same_data, collect_deletions, remove_at, delete_indices, remove_entry,
}

-- What the code means to keep, to drop and to report.
unfoldable pub survivors : LedgerEntry → List EntryWithLiveUntil → List EntryWithLiveUntil
survivors cur [] = []
survivors cur ((e, ttl) ∷ es) =
    let rest = survivors cur es in if same_data e.payload cur.payload then rest else (e, ttl) ∷ rest

unfoldable pub victims : LedgerEntry → List EntryWithLiveUntil → List LedgerEntry
victims cur [] = []
victims cur ((e, ttl) ∷ es) =
    let rest = victims cur es in if same_data e.payload cur.payload then e ∷ rest else rest

unfoldable pub any_hit : LedgerEntry → List EntryWithLiveUntil → Bool
any_hit cur [] = false
any_hit cur ((e, ttl) ∷ es) = same_data e.payload cur.payload || any_hit cur es

hits : LedgerEntry → ℕ → List EntryWithLiveUntil → List ℕ
hits cur idx [] = []
hits cur idx ((e, ttl) ∷ es) =
    let rest = hits cur (idx + 1) es in if same_data e.payload cur.payload then idx ∷ rest else rest

collect_deletions_lem :
    (cur : LedgerEntry) (idx : ℕ) (st : List EntryWithLiveUntil) (d : List ℕ) (f : List LedgerEntry)
    → collect_deletions cur idx st d f ≡ (d ++ hits cur idx st, f ++ victims cur st)
unfolding collect_deletions hits victims
collect_deletions_lem cur idx [] d f = simp append-nil
collect_deletions_lem cur idx ((e, ttl) ∷ es) d f =
    elim (Bool-cases (same_data e.payload cur.payload)) [
      | inl hit ↦ rw (hit, collect_deletions_lem cur (idx + 1) es) (simp append_assoc)
      | inr miss ↦ rw (miss, collect_deletions_lem cur (idx + 1) es) refl
    ]

remove_at-length {ℓ} :
    {A : Type ℓ} (xs : List A) (a : A) (ys : List A)
    → remove_at (length xs) (xs ++ a ∷ ys) ≡ xs ++ ys
unfolding remove_at
remove_at-length [] a ys = refl
remove_at-length (x ∷ xs) a ys = ap (◌∷◌ x) (remove_at-length xs a ys)

delete_indices-cons :
    (idx shift : ℕ) (rest : List ℕ) (kept es : List EntryWithLiveUntil) (x : EntryWithLiveUntil)
    (changed : Bool)
    → idx ≡ length kept + shift
    → delete_indices (idx ∷ rest) shift (kept ++ x ∷ es) changed
      ≡ delete_indices rest (shift + 1) (kept ++ es) true
unfolding delete_indices
delete_indices-cons idx shift rest kept es x changed e =
    ground (arith, remove_at-length kept x es, length-append kept (x ∷ es))

-- The entries before the index are final, `shift` of them are gone.
delete_indices-hits :
    (cur : LedgerEntry) (idx shift : ℕ) (kept st : List EntryWithLiveUntil) (changed : Bool)
    → idx ≡ length kept + shift
    → delete_indices (hits cur idx st) shift (kept ++ st) changed
      ≡ ok (kept ++ survivors cur st, changed || any_hit cur st)
unfolding hits survivors any_hit
delete_indices-hits cur idx shift kept [] changed e = unfold delete_indices in ground arith
delete_indices-hits cur idx shift kept ((x, ttl) ∷ es) changed e =
    elim (Bool-cases (same_data x.payload cur.payload)) [
      | inl hit ↦
          rw
            (
              hit,
              delete_indices-cons idx shift (hits cur (idx + 1) es) kept es (x, ttl) changed e,
              delete_indices-hits cur (idx + 1) (shift + 1) kept es true (omega arith),
            )
            (ground arith)
      | inr miss ↦
          rw
            (
              miss,
              ← append_assoc kept ((x, ttl) ∷ []) es,
              ← append_assoc kept ((x, ttl) ∷ []) (survivors cur es),
            )
            (delete_indices-hits cur (idx + 1) shift (kept ++ (x, ttl) ∷ []) es changed
              (omega (arith, length-append kept ((x, ttl) ∷ []))))
    ]

-- Removing an entry never panics and never finds an index past the end. It drops exactly the
-- contract data under the entry's contract and key, reports them in `force_remove` in their order,
-- and sets `changed` if there are any.
pub remove_entry-filter :
    (cur : LedgerEntry) (t : Tracked)
    → remove_entry cur t
      ≡ ok (
        record t.0 {
          target_pre_execution_state = survivors cur t.0.target_pre_execution_state;
          force_remove = t.0.force_remove ++ victims cur t.0.target_pre_execution_state;
        },
        t.1 || any_hit cur t.0.target_pre_execution_state,
      )
unfolding remove_entry
remove_entry-filter cur (x, changed) =
    let st = x.target_pre_execution_state in
    rw (collect_deletions_lem cur 0 st [] [], delete_indices-hits cur 0 0 [] st changed refl) refl
