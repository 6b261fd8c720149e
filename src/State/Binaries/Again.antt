-- ===== src/State/Binaries/Again.antt =====
-- `replace_binaries` of retroshade/src/state.rs on a state where the code is replaced already.
use mathlib.Core.Path.{fun_ext}
use retroshade.Base.{
  Bool, true, false, List, [], ◌∷◌, ltb, length, ◌≡◌, refl, ap, subst, ◌∙◌, inl, inr, Bool-cases,
  Option-cases,
}
use retroshade.Xdr.Ledger.{LedgerEntry, LedgerEntryData, ContractCodeEntry}
use retroshade.Execution.{
  EntryWithLiveUntil, Outcome, ok, err, panic, ◌>>=◌, >>=-eq-ok, RetroshadesExecution,
}
use retroshade.State.Reset.{u32_max}
use retroshade.State.Binaries.{
  Binaries, get, entry_mutation, binaries_mutation, entry_replacement, replace_codes,
  replaced_state, store_state, replace_binaries,
}

module _ (mercury mutation : Binaries) where
  -- What the second loop keeps of an entry: its part in the first loop, and itself in the second.
  record Settles (d : LedgerEntryData) (b : Bool) (r : LedgerEntry × Bool) : Type 0 where
    pub mutates : (m : Binaries) → entry_mutation mercury r.0.payload m ≡ entry_mutation mercury d m
    pub again : entry_replacement mutation r.0 r.0.payload b ≡ ok r

  kept-Settles :
      (e : LedgerEntry) (d : LedgerEntryData) (b : Bool) (r : LedgerEntry × Bool)
      → e.payload ≡ d
      → entry_replacement mutation e d b ≡ ok (e, b)
      → entry_replacement mutation e d b ≡ ok r
      → Settles d b r
  kept-Settles e d b r p kept h =
      let same : (e, b) ≡ r = cc in
      subst (Settles d b) same (record {
        mutates = λ m. ap (λ x. entry_mutation mercury x m) p;
        again = ap (λ x. entry_replacement mutation e x b) p ∙ kept;
      })

  code-Settles :
      (e : LedgerEntry) (c : ContractCodeEntry) (b : Bool) (r : LedgerEntry × Bool)
      → e.payload ≡ LedgerEntryData.contract_code c
      → entry_replacement mutation e (LedgerEntryData.contract_code c) b ≡ ok r
      → Settles (LedgerEntryData.contract_code c) b r
  unfolding entry_replacement entry_mutation
  code-Settles e c b r p h = elim (Option-cases (get mutation c.hash)) [
    | inl q ↦ kept-Settles e (LedgerEntryData.contract_code c) b r p (rw q refl) h
    | inr (code, q) ↦ elim (Bool-cases (ltb u32_max (length code))) [
      | inl long ↦ let bad : panic ≡ ok r = rw (q, long) at h in cc
      | inr fits ↦
          let e' : LedgerEntry = record e {
            payload = LedgerEntryData.contract_code (record c { code = code });
          } in
          let run : ok (e', true) ≡ ok r = rw (q, fits) at h in
          let same : (e', true) ≡ r = cc in
          subst (Settles (LedgerEntryData.contract_code c) b) same
            (record { mutates = λ m. refl; again = rw (q, fits) refl })
    ]
  ]

  entry-Settles :
      (e : LedgerEntry) (d : LedgerEntryData) (b : Bool) (r : LedgerEntry × Bool)
      → e.payload ≡ d
      → entry_replacement mutation e d b ≡ ok r
      → Settles d b r
  unfolding entry_replacement
  entry-Settles e (LedgerEntryData.contract_code c) b r p h = code-Settles e c b r p h
  entry-Settles e d b r p h = kept-Settles e d b r p refl h

  -- The same for the whole state.
  record AllSettle (st : List EntryWithLiveUntil) (b : Bool) (r : List EntryWithLiveUntil × Bool)
      : Type 0 where
    pub mutates : (m : Binaries) → binaries_mutation mercury r.0 m ≡ binaries_mutation mercury st m
    pub again : replace_codes mutation r.0 b ≡ ok r

  replace_codes-AllSettle :
      (st : List EntryWithLiveUntil) (b : Bool) (r : List EntryWithLiveUntil × Bool)
      → replace_codes mutation st b ≡ ok r
      → AllSettle st b r
  unfolding replace_codes binaries_mutation
  replace_codes-AllSettle [] b r h =
      let same : ([], b) ≡ r = cc in
      subst (AllSettle [] b) same (record { mutates = λ m. refl; again = refl })
  replace_codes-AllSettle ((e, ttl) ∷ es) b r h =
      let (r1, h1, rest) = >>=-eq-ok (entry_replacement mutation e e.payload b) _ h in
      let (r2, h2, done) = >>=-eq-ok (replace_codes mutation es r1.1) _ rest in
      let one = entry-Settles e e.payload b r1 refl h1 in
      let more = replace_codes-AllSettle es r1.1 r2 h2 in
      let same : ((r1.0, ttl) ∷ r2.0, r2.1) ≡ r = cc in
      subst (AllSettle ((e, ttl) ∷ es) b) same (record {
        mutates = λ m.
            ap (λ o. o >>= λ m'. binaries_mutation mercury r2.0 m') (one.mutates m)
            ∙ ap (λ f. entry_mutation mercury e.payload m >>= f) (fun_ext more.mutates);
        again = rw (one.again, more.again) refl;
      })

replaced_state-again :
    (mercury : Binaries) (st : List EntryWithLiveUntil) (r : List EntryWithLiveUntil × Bool)
    → replaced_state mercury st ≡ ok r
    → replaced_state mercury r.0 ≡ ok r
unfolding replaced_state
replaced_state-again mercury st r h =
    let (mutation, h1, h2) =
      >>=-eq-ok (binaries_mutation mercury st []) (λ m. replace_codes m st false) h in
    let settled = replace_codes-AllSettle mercury mutation st false r h2 in
    rw (settled.mutates [], h1) settled.again

stored-again :
    (mercury : Binaries) (x : RetroshadesExecution) (o : Outcome (List EntryWithLiveUntil × Bool))
    → replaced_state mercury x.target_pre_execution_state ≡ o
    → store_state
        (replaced_state mercury (store_state o x).1.target_pre_execution_state)
        (store_state o x).1
      ≡ store_state o x
stored-again mercury x (ok r) h =
    rw (replaced_state-again mercury x.target_pre_execution_state r h) refl
stored-again mercury x (err e) h = rw h refl
stored-again mercury x panic h = rw h refl

-- Replacing the binaries again, with the same registered contracts, has the same outcome and
-- leaves the object as the first time left it, whatever the state is.
pub replace_binaries-again :
    (mercury : Binaries) (x : RetroshadesExecution)
    → replace_binaries mercury (replace_binaries mercury x).1 ≡ replace_binaries mercury x
unfolding replace_binaries
replace_binaries-again mercury x =
    stored-again mercury x (replaced_state mercury x.target_pre_execution_state) refl
