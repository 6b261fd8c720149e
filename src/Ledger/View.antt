-- ===== src/Ledger/View.antt =====
-- What the overlay of retroshade/src/snapshot.rs shows of an execution object, at one key.
use retroshade.Base.{true, false, Option, none, some, ◌≡◌, arith}
use retroshade.Xdr.Ledger.{LedgerEntry, LedgerKey}
use retroshade.Execution.{SnapshotSource, RetroshadesExecution, HostResult}
use retroshade.Snapshot
use retroshade.Snapshot.{find_entry, is_forced, entry_part, entry_answer}
use retroshade.Ledger.Revert.{SameAt}

-- The answer of the snapshot that recording mode reads from.
abbrev pub view :
    SnapshotSource → RetroshadesExecution → LedgerKey → HostResult (Option LedgerEntry)
view s x k =
    entry_answer (Snapshot.get (Snapshot.new s x.target_pre_execution_state x.force_remove) k)

module _ (s : SnapshotSource) (k : LedgerKey) (x : RetroshadesExecution) where
  pub view_found :
      (v : LedgerEntry)
      → entry_part (find_entry k x.target_pre_execution_state) ≡ some v
      → view s x k ≡ HostResult.ok (some v)
  unfolding Snapshot.get Snapshot.new
  view_found v h = ground arith

  pub view_forced :
      find_entry k x.target_pre_execution_state ≡ none
      → is_forced k x.force_remove ≡ true
      → view s x k ≡ HostResult.ok none
  unfolding Snapshot.get Snapshot.new
  view_forced h f = ground arith

  pub view_inner :
      find_entry k x.target_pre_execution_state ≡ none
      → is_forced k x.force_remove ≡ false
      → view s x k ≡ entry_answer (s k)
  unfolding Snapshot.get Snapshot.new
  view_inner h f = ground arith

  pub view-SameAt : (y : RetroshadesExecution) → SameAt k x y → view s y k ≡ view s x k
  unfolding Snapshot.get Snapshot.new
  view-SameAt y same = ground (arith, same.found, same.forced)
