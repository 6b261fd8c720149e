-- ===== src/Ledger/Slots.antt =====
-- The tests of retroshade/src/state.rs on entries, read on their keys.
use retroshade.Base.{
  Bool, true, false, Option, none, some, ◌≡◌, ◌≢◌, ◌↔◌, refl, inl, inr, Option-cases, arith,
}
use retroshade.Xdr.Value.{Opaque, Bytes-eq, AccountId-eq, ScAddress-eq, ScVal-eq}
use retroshade.Xdr.Ledger.{LedgerEntry, LedgerEntryData, ContractDataEntry, LedgerKey, LedgerKey-eq}
use retroshade.Snapshot.{entry_key, has_key}
use retroshade.State.Reset.{is_target, same_data}
use retroshade.Ledger.{same_slot, is_data_key}

abbrev slot_test : Option LedgerKey → Option LedgerKey → Bool
slot_test (some k) (some p) = same_slot k p
slot_test _ _ = false

is_target-slot_test :
    (a b : LedgerEntryData) → is_target a b ≡ slot_test (entry_key a) (entry_key b)
unfolding is_target entry_key same_slot
is_target-slot_test (LedgerEntryData.account _) (LedgerEntryData.account _) = refl
is_target-slot_test (LedgerEntryData.trustline _) (LedgerEntryData.trustline _) = refl
is_target-slot_test (LedgerEntryData.contract_data _) (LedgerEntryData.contract_data _) = refl
is_target-slot_test (LedgerEntryData.contract_code _) (LedgerEntryData.contract_code _) = refl
is_target-slot_test (LedgerEntryData.ttl _) (LedgerEntryData.ttl _) = refl
is_target-slot_test (LedgerEntryData.other _) (LedgerEntryData.other _) = refl
is_target-slot_test _ _ = refl

pub is_target_lem :
    (a b : LedgerEntryData) {k p : LedgerKey}
    → entry_key a ≡ some k
    → entry_key b ≡ some p
    → is_target a b ≡ same_slot k p
is_target_lem a b e f = rw (is_target-slot_test a b, e, f)

pub is_target_unkeyed : (a b : LedgerEntryData) → entry_key b ≡ none → is_target a b ≡ false
is_target_unkeyed a b e = rw (is_target-slot_test a b, e) (slot_test_none (entry_key a))
  where
    slot_test_none : (k : Option LedgerKey) → slot_test k none ≡ false
    slot_test_none none = refl
    slot_test_none (some k) = refl

data_payload :
    (b : LedgerEntryData) (p : LedgerKey)
    → entry_key b ≡ some p
    → is_data_key p ≡ true
    → (d : ContractDataEntry) × (b ≡ LedgerEntryData.contract_data d)
unfolding entry_key
data_payload (LedgerEntryData.contract_data d) p e h = (d, refl)
data_payload (LedgerEntryData.account a) p e h = ground arith
data_payload (LedgerEntryData.trustline a) p e h = ground arith
data_payload (LedgerEntryData.contract_code a) p e h = ground arith
data_payload (LedgerEntryData.ttl a) p e h = cc
data_payload (LedgerEntryData.other a) p e h = cc

same_data_lem :
    (a : LedgerEntryData) (d : ContractDataEntry)
    → same_data a (LedgerEntryData.contract_data d) ≡ is_target a (LedgerEntryData.contract_data d)
unfolding is_target
same_data_lem (LedgerEntryData.account _) d = refl
same_data_lem _ d = refl

-- `remove_entry` compares contract data as `update_entries` does, and nothing else.
pub same_data-is_target :
    (a b : LedgerEntryData) (p : LedgerKey)
    → entry_key b ≡ some p
    → is_data_key p ≡ true
    → same_data a b ≡ is_target a b
same_data-is_target a b p e h = let (d, q) = data_payload b p e h in rw q (same_data_lem a d)

pub same_data_unkeyed : (a b : LedgerEntryData) → entry_key b ≡ none → same_data a b ≡ false
unfolding entry_key
same_data_unkeyed (LedgerEntryData.contract_data a) (LedgerEntryData.contract_data b) e = cc
same_data_unkeyed _ _ e = refl

pub has_key_iff :
    (k : LedgerKey) (e : LedgerEntry) → (has_key k e ≡ true) ↔ (entry_key e.payload ≡ some k)
unfolding has_key
has_key_iff k e = elim (Option-cases (entry_key e.payload)) [
  | inl q ↦ rw (q, has_key) (λ h. cc, λ h. cc)
  | inr (p, q) ↦ rw (q, has_key) (ground (arith, LedgerKey-eq.eqb_iff k p))
]

pub has_key-none :
    (k : LedgerKey) (e : LedgerEntry) → entry_key e.payload ≡ none → has_key k e ≡ false
unfolding has_key
has_key-none k e q = rw (q, has_key)

entry_key-ne-other : (e : LedgerEntryData) (a : Opaque) → entry_key e ≢ some (LedgerKey.other a)
unfolding entry_key
entry_key-ne-other (LedgerEntryData.account _) a q = cc
entry_key-ne-other _ a q = cc

-- The key of an entry is in its own slot.
pub same_slot_self :
    (e : LedgerEntryData) (k : LedgerKey) → entry_key e ≡ some k → same_slot k k ≡ true
unfolding same_slot
same_slot_self e (LedgerKey.account a) q = (AccountId-eq.eqb_iff _ _).1 refl
same_slot_self e (LedgerKey.trustline a) q =
    ground (arith, AccountId-eq.eqb_iff a.account_id a.account_id, Bytes-eq.eqb_iff a.asset a.asset)
same_slot_self e (LedgerKey.contract_data a) q =
    ground (arith, ScAddress-eq.eqb_iff a.contract a.contract, ScVal-eq.eqb_iff a.key a.key)
same_slot_self e (LedgerKey.contract_code a) q = (Bytes-eq.eqb_iff _ _).1 refl
same_slot_self e (LedgerKey.other a) q = absurd (entry_key-ne-other e a q)

pub has_key_apart :
    (k p : LedgerKey) (e : LedgerEntry)
    → entry_key e.payload ≡ some p
    → same_slot k p ≡ false
    → has_key k e ≡ false
has_key_apart k p e q a = ground (arith, has_key_iff k e, same_slot_self e.payload k)
