-- ===== src/Retroshade/Run.antt =====
-- The call `retroshade` of retroshade/src/lib.rs on an object that is ready.
use retroshade.Base.{true, false, List, some, ◌≡◌, refl, ap, ◌∙◌, inl, inr}
use retroshade.Xdr.Value.{Bytes, Opaque, AccountId}
use retroshade.Xdr.Transaction.{SorobanResources}
use retroshade.Execution.{
  EntryWithLiveUntil, DiagnosticEvent, svm_host, Outcome, ok, err, panic, ◌>>=◌, HostResult,
  HostResult-cases, RetroshadesExecution, RetroshadeExecutionResult,
}
use retroshade.State.Lives.{all_live}
use retroshade.Svm.{execute_svm, run_invocation}
use retroshade.Svm.Calls.{Invocation, InvokeHostFunctionResult, Host}
use retroshade.Svm.Encode.{encode_invocation}
use retroshade.Svm.Answer.{svm_result}
use retroshade.Svm.Pairs.{
  Pairwise, Writes, TtlBytes, map_all-Pairwise, encode_ttls, encode_ttls-panic,
}
use retroshade.Svm.Readable.{Readable, svm_result-Readable}
use retroshade.Retroshade.{execution_result, retroshade_enforcing}
use retroshade.Retroshade.Ready.{Context, context_of, IsReady}

-- What the transaction is run with.
pub record Subject : Type 0 where
  pub host_function : Opaque
  pub auth_entries : List Opaque
  pub resources : SorobanResources
  pub source_account : AccountId
  pub ledger_info : Opaque

abbrev pub full_context : Subject → Context
full_context c = record {
  host_function = some c.host_function;
  auth_entries = c.auth_entries;
  resources = some c.resources;
  source_account = some c.source_account;
  ledger_info = c.ledger_info;
}

-- The arguments are the encodings of the subject, of the entries in their order, and of their
-- lifetimes in the same order.
pub record Encodes (h : Host) (c : Subject) (st : List EntryWithLiveUntil) (seed : Bytes)
    (i : Invocation) : Type 0 where
  pub diagnostics : i.enable_diagnostics ≡ true
  pub host_function : h.host_function_to_xdr c.host_function ≡ some i.encoded_host_fn
  pub resources : h.resources_to_xdr c.resources ≡ some i.encoded_resources
  pub source_account : h.account_to_xdr c.source_account ≡ some i.encoded_source_account
  pub auth : Pairwise (λ a b. h.auth_to_xdr a ≡ some b) c.auth_entries i.encoded_auth_entries
  pub ledger_info : i.ledger_info ≡ c.ledger_info
  pub entries : Pairwise (λ e b. h.entry_to_xdr e.0 ≡ some b) st i.encoded_ledger_entries
  pub lifetimes : Pairwise (TtlBytes h) st i.encoded_ttl_entries
  pub seed_is : i.prng_seed ≡ seed

-- The host writes what can be read.
abbrev pub Reads : Host → Type 0
Reads h =
    (i : Invocation) (res : InvokeHostFunctionResult)
    → (h.invoke_host_function i).0 ≡ HostResult.ok res
    → Readable h res

-- The answer of the host: its error, or its exports with the diagnostic events.
abbrev pub answer :
    HostResult InvokeHostFunctionResult × List DiagnosticEvent → Outcome RetroshadeExecutionResult
answer (HostResult.err e, ds) = err (svm_host e)
answer (HostResult.ok res, ds) = ok (record { retroshades = res.retroshades; diagnostic = ds })

-- The budget is lifted first, which may fail.
abbrev pub host_answer : Host → Invocation → Outcome RetroshadeExecutionResult
host_answer h i = elim h.reset_unlimited [
  | HostResult.err e ↦ err (svm_host e)
  | HostResult.ok _ ↦ answer (h.invoke_host_function i)
]

module _ (h : Host) (w : Writes h) where
  encode_invocation-Encodes :
      (c : Subject) (st : List EntryWithLiveUntil) (seed : Bytes)
      → all_live st ≡ true
      → (i : Invocation) × (encode_invocation h true c.host_function c.resources c.source_account
            c.auth_entries c.ledger_info st seed
          ≡ ok i)
        × Encodes h c st seed i
  unfolding encode_invocation
  encode_invocation-Encodes c st seed live =
      let (f, e1) = w.host_function c.host_function in
      let (r, e2) = w.resources c.resources in
      let (a, e3) = w.account c.source_account in
      let (auths, e4, p4) = map_all-Pairwise h.auth_to_xdr c.auth_entries w.auth in
      let (es, e5, p5) =
        map_all-Pairwise (λ (e : EntryWithLiveUntil). h.entry_to_xdr e.0) st (λ e. w.entry e.0) in
      let (ts, e6, p6) = encode_ttls h w st live in
      (
        record {
          enable_diagnostics = true;
          encoded_host_fn = f;
          encoded_resources = r;
          encoded_source_account = a;
          encoded_auth_entries = auths;
          ledger_info = c.ledger_info;
          encoded_ledger_entries = es;
          encoded_ttl_entries = ts;
          prng_seed = seed;
        },
        rw (e1, e2, e3, e4, e5, e6) refl,
        record {
          diagnostics = refl;
          host_function = e1;
          resources = e2;
          source_account = e3;
          auth = p4;
          ledger_info = refl;
          entries = p5;
          lifetimes = p6;
          seed_is = refl;
        },
      )

  svm_result-answer :
      (r : HostResult InvokeHostFunctionResult × List DiagnosticEvent)
      → ((res : InvokeHostFunctionResult) → r.0 ≡ HostResult.ok res → Readable h res)
      → (svm_result h r >>= execution_result) ≡ answer r
  unfolding svm_result
  svm_result-answer (HostResult.err e, ds) p = refl
  svm_result-answer (HostResult.ok res, ds) p =
      let (r, run, exports, events) = svm_result-Readable h res ds (p res refl) in
      rw (run, exports, events) refl

  run_invocation-answer :
      (i : Invocation) → Reads h → (run_invocation h i >>= execution_result) ≡ host_answer h i
  unfolding run_invocation
  run_invocation-answer i reads = elim (HostResult-cases h.reset_unlimited) [
    | inl (u, q) ↦ rw q (svm_result-answer (h.invoke_host_function i) (reads i))
    | inr (e, q) ↦ rw q refl
  ]

  -- With a full context, the call is the encoding, the host, and the reading of its answer.
  enforcing-context :
      (c : Subject) (x : RetroshadesExecution) (seed : Bytes)
      → context_of x ≡ full_context c
      → retroshade_enforcing h seed x ≡ (
          encode_invocation h true c.host_function c.resources c.source_account c.auth_entries
            c.ledger_info x.target_pre_execution_state seed
          >>= run_invocation h
          >>= execution_result)
  unfolding retroshade_enforcing execute_svm encode_invocation
  enforcing-context c x seed q =
      let f : x.host_function ≡ some c.host_function = ap (λ k. k.host_function) q in
      let r : x.resources ≡ some c.resources = ap (λ k. k.resources) q in
      let a : x.source_account ≡ some c.source_account = ap (λ k. k.source_account) q in
      let auth : x.auth_entries ≡ c.auth_entries = ap (λ k. k.auth_entries) q in
      let li : x.ledger_info ≡ c.ledger_info = ap (λ k. k.ledger_info) q in
      rw (f, r, a, auth, li) refl

  -- If the serialiser works and the host writes XDR that can be read, a ready object runs the host
  -- once, on the encodings of its context, of its entries in their order, and of their lifetimes
  -- in the same order. The call does not panic: it gives the host's error, or its exports and
  -- diagnostic events, or the error of lifting the budget before the host is run.
  pub retroshade_enforcing-answer :
      (c : Subject) (x : RetroshadesExecution) (seed : Bytes)
      → Reads h
      → IsReady (full_context c) x
      → (i : Invocation) × Encodes h c x.target_pre_execution_state seed i
        × (retroshade_enforcing h seed x ≡ host_answer h i)
  retroshade_enforcing-answer c x seed reads ready =
      let (i, run, enc) = encode_invocation-Encodes c x.target_pre_execution_state seed ready.1 in
      (i, enc, enforcing-context c x seed ready.0 ∙ rw run (run_invocation-answer i reads))

  -- An object with a full context and a contract entry that has no lifetime makes the call panic,
  -- if the serialiser works.
  pub retroshade_enforcing-panic :
      (c : Subject) (x : RetroshadesExecution) (seed : Bytes)
      → context_of x ≡ full_context c
      → all_live x.target_pre_execution_state ≡ false
      → retroshade_enforcing h seed x ≡ panic
  unfolding encode_invocation
  retroshade_enforcing-panic c x seed q dead =
      let st = x.target_pre_execution_state in
      let (f, e1) = w.host_function c.host_function in
      let (r, e2) = w.resources c.resources in
      let (a, e3) = w.account c.source_account in
      let (auths, e4, p4) = map_all-Pairwise h.auth_to_xdr c.auth_entries w.auth in
      let (es, e5, p5) =
        map_all-Pairwise (λ (e : EntryWithLiveUntil). h.entry_to_xdr e.0) st (λ e. w.entry e.0) in
      enforcing-context c x seed q ∙ rw (e1, e2, e3, e4, e5, encode_ttls-panic h w st dead) refl
