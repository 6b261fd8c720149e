-- ===== src/Svm/Pairs.antt =====
-- What goes into the host: each entry of the state next to the bytes of its lifetime.
use retroshade.Base.{
  ℕ, true, false, List, [], ◌∷◌, Option, none, some, ◌≡◌, refl, arith, inl, inr, Bool-cases,
}
use retroshade.Xdr.Value.{Bytes, Opaque, AccountId}
use retroshade.Xdr.Ledger.{LedgerEntry, LedgerEntryData, LedgerKey, TtlEntry}
use retroshade.Xdr.Transaction.{SorobanResources}
use retroshade.Execution.{EntryWithLiveUntil, ok, panic, unwrap}
use retroshade.Snapshot.{entry_key}
use retroshade.State.Lives.{expires, lives, all_live}
use retroshade.Svm.Calls.{Host, map_all}
use retroshade.Svm.Encode.{ttl_key, ttl_entry, compute_key_hash, encode_ttl}

-- The two lists are as long, and related element by element.
abbrev pub Pairwise {ℓ κ} : {A : Type ℓ} {B : Type κ} → (A → B → Type 0) → List A → List B → Type 0
Pairwise R [] [] = Unit
Pairwise R (x ∷ xs) (y ∷ ys) = R x y × Pairwise R xs ys
Pairwise R _ _ = ⊥

pub map_all-Pairwise {ℓ} :
    {A : Type ℓ} {B : Type 0} (f : A → Option B) (xs : List A)
    → ((x : A) → (y : B) × (f x ≡ some y))
    → (ys : List B) × (map_all (λ x. unwrap (f x)) xs ≡ ok ys)
      × Pairwise (λ x y. f x ≡ some y) xs ys
unfolding map_all
map_all-Pairwise f [] total = ([], refl, tt)
map_all-Pairwise f (x ∷ xs) total =
    let (y, e) = total x in
    let (ys, es, r) = map_all-Pairwise f xs total in (y ∷ ys, rw (e, es) refl, (e, r))

-- The serialiser of the XDR types, without limits, writes every value.
pub record Writes (h : Host) : Type 0 where
  pub host_function : (f : Opaque) → (b : Bytes) × (h.host_function_to_xdr f ≡ some b)
  pub resources : (r : SorobanResources) → (b : Bytes) × (h.resources_to_xdr r ≡ some b)
  pub account : (a : AccountId) → (b : Bytes) × (h.account_to_xdr a ≡ some b)
  pub auth : (a : Opaque) → (b : Bytes) × (h.auth_to_xdr a ≡ some b)
  pub entry : (e : LedgerEntry) → (b : Bytes) × (h.entry_to_xdr e ≡ some b)
  pub key : (k : LedgerKey) → (b : Bytes) × (h.key_to_xdr k ≡ some b)
  pub ttl : (t : TtlEntry) → (b : Bytes) × (h.ttl_to_xdr t ≡ some b)

-- The bytes of an entry's lifetime: the XDR of its last ledger under the hash of the entry's key,
-- and no bytes for an entry that does not expire.
pub data TtlBytes (h : Host) : EntryWithLiveUntil → Bytes → Type 0 where
  no_bytes : {e : LedgerEntry} {ttl : Option ℕ} → expires e.payload ≡ false → TtlBytes h (e, ttl) []
  until :
      {e : LedgerEntry} {n : ℕ} {key : LedgerKey} {key_xdr t : Bytes}
      → expires e.payload ≡ true
      → entry_key e.payload ≡ some key
      → h.key_to_xdr key ≡ some key_xdr
      → h.ttl_to_xdr (record { key_hash = h.sha256 key_xdr; live_until_ledger_seq = n }) ≡ some t
      → TtlBytes h (e, some n) t

module _ (h : Host) (w : Writes h) where
  -- An entry that expires is encoded if it has a lifetime.
  encode_ttl-until :
      (e : LedgerEntry) (n : ℕ) (key : LedgerKey)
      → expires e.payload ≡ true
      → entry_key e.payload ≡ some key
      → ttl_key e.payload ≡ some key
      → (t : Bytes) × (encode_ttl h (e, some n) ≡ ok t) × TtlBytes h (e, some n) t
  unfolding encode_ttl ttl_entry compute_key_hash
  encode_ttl-until e n key x k q =
      let (key_xdr, ek) = w.key key in
      let (t, et) = w.ttl (record { key_hash = h.sha256 key_xdr; live_until_ledger_seq = n }) in
      (t, rw (encode_ttl, q, ek, et) refl, TtlBytes.until x k ek et)

  encode_ttl-no_bytes :
      (e : LedgerEntry) (ttl : Option ℕ)
      → expires e.payload ≡ false
      → ttl_key e.payload ≡ none
      → (t : Bytes) × (encode_ttl h (e, ttl) ≡ ok t) × TtlBytes h (e, ttl) t
  unfolding encode_ttl
  encode_ttl-no_bytes e ttl x q = ([], rw (encode_ttl, q) refl, TtlBytes.no_bytes x)

  encode_ttl-TtlBytes :
      (d : LedgerEntryData) (e : LedgerEntry) (ttl : Option ℕ)
      → e.payload ≡ d
      → lives (e, ttl) ≡ true
      → (t : Bytes) × (encode_ttl h (e, ttl) ≡ ok t) × TtlBytes h (e, ttl) t
  unfolding ttl_key expires entry_key lives
  encode_ttl-TtlBytes (LedgerEntryData.contract_data d) e none q live = absurd (ground arith)
  encode_ttl-TtlBytes (LedgerEntryData.contract_code d) e none q live = absurd (ground arith)
  encode_ttl-TtlBytes (LedgerEntryData.contract_data d) e (some n) q live =
      encode_ttl-until e n
        (LedgerKey.contract_data
          (record { contract = d.contract; key = d.key; durability = d.durability }))
        (rw q refl) (rw q refl) (rw q refl)
  encode_ttl-TtlBytes (LedgerEntryData.contract_code d) e (some n) q live =
      encode_ttl-until e n (LedgerKey.contract_code (record { hash = d.hash })) (rw q refl)
        (rw q refl) (rw q refl)
  encode_ttl-TtlBytes (LedgerEntryData.account d) e ttl q live =
      encode_ttl-no_bytes e ttl (rw q refl) (rw q refl)
  encode_ttl-TtlBytes (LedgerEntryData.trustline d) e ttl q live =
      encode_ttl-no_bytes e ttl (rw q refl) (rw q refl)
  encode_ttl-TtlBytes (LedgerEntryData.ttl d) e ttl q live =
      encode_ttl-no_bytes e ttl (rw q refl) (rw q refl)
  encode_ttl-TtlBytes (LedgerEntryData.other d) e ttl q live =
      encode_ttl-no_bytes e ttl (rw q refl) (rw q refl)

  pub encode_ttls :
      (st : List EntryWithLiveUntil)
      → all_live st ≡ true
      → (ts : List Bytes) × (map_all (encode_ttl h) st ≡ ok ts) × Pairwise (TtlBytes h) st ts
  unfolding map_all all_live
  encode_ttls [] live = ([], refl, tt)
  encode_ttls ((e, ttl) ∷ st) live =
      let (t, e1, r) = encode_ttl-TtlBytes e.payload e ttl refl (ground arith) in
      let (ts, es, rs) = encode_ttls st (ground arith) in (t ∷ ts, rw (e1, es) refl, (r, rs))

  -- An entry that expires and has no lifetime is a panic.
  encode_ttl-panic :
      (d : LedgerEntryData) (e : LedgerEntry)
      → e.payload ≡ d
      → lives (e, none) ≡ false
      → encode_ttl h (e, none) ≡ panic
  unfolding encode_ttl ttl_key expires lives
  encode_ttl-panic (LedgerEntryData.contract_data d) e q live = rw (encode_ttl, q) refl
  encode_ttl-panic (LedgerEntryData.contract_code d) e q live = rw (encode_ttl, q) refl
  encode_ttl-panic (LedgerEntryData.account d) e q live = absurd (ground arith)
  encode_ttl-panic (LedgerEntryData.trustline d) e q live = absurd (ground arith)
  encode_ttl-panic (LedgerEntryData.ttl d) e q live = absurd (ground arith)
  encode_ttl-panic (LedgerEntryData.other d) e q live = absurd (ground arith)

  lives-none : (e : LedgerEntry) (ttl : Option ℕ) → lives (e, ttl) ≡ false → ttl ≡ none
  unfolding lives
  lives-none e none q = refl
  lives-none e (some n) q = cc

  pub encode_ttls-panic :
      (st : List EntryWithLiveUntil) → all_live st ≡ false → map_all (encode_ttl h) st ≡ panic
  unfolding map_all all_live
  encode_ttls-panic [] live = cc
  encode_ttls-panic ((e, ttl) ∷ st) live = elim (Bool-cases (lives (e, ttl))) [
    | inl good ↦
        let (t, e1, r) = encode_ttl-TtlBytes e.payload e ttl refl good in
        rw (e1, encode_ttls-panic st (ground arith)) refl
    | inr bad ↦
        let q = lives-none e ttl bad in rw (q, encode_ttl-panic e.payload e refl (rw q at bad)) refl
  ]
