-- ===== src/Lib.antt =====
-- Retroshade replays Soroban transactions on changed contract code. An execution object is built
-- from a transaction's envelope and its meta: it loads the entries of the transaction's footprint
-- as they are now, puts back what the transaction changed, and swaps the code of the registered
-- contracts. The virtual machine then runs on that state, and the events that the new code exports
-- become rows for an SQL database.
--
-- The parts, the files that model them, and the code they are about:
--   Xdr            the ledger entries, values, transactions and metas of the XDR crate, with the
--                  constructors that the source names; all else is `other`, opaque.
--   Execution      retroshade/src/lib.rs, the types and `new`. `Result<A, RetroshadeError>` is
--                  `Outcome A`, with the panic as a third case; a call on `&mut self` is a `Step`,
--                  the outcome with the object as it is left.
--   State.Build    retroshade/src/state.rs, `build_current_state`.
--   State.Reset    retroshade/src/state.rs, `state_reset_to_pre_execution`, `process_operation`,
--                  `add_entry`, `remove_entry`, `update_entries`; State/Reset/Reference is a
--                  description of the reset without indices.
--   State.Binaries retroshade/src/state.rs, `replace_binaries`.
--   Snapshot       retroshade/src/snapshot.rs, the overlay that recording mode reads from;
--                  Snapshot/Overlay says of its answers, without the code, which entry they are.
--   Ledger         no code: the ledger as a function of keys, and a transaction's changes as steps
--                  between two ledgers, by which loading and resetting are measured.
--   Svm            retroshade/src/internal.rs: the arguments of the host in XDR, its answers, and
--                  `execute_svm` and `execute_svm_in_recording_mode`; and `no_op_change`, which no
--                  code calls. The field `budget` of the helper's result, which nothing reads, is
--                  left out.
--   State.Lives    the lifetimes of the entries, through the parts of retroshade/src/state.rs.
--   Retroshade     retroshade/src/lib.rs, `build_from_envelope_and_meta`, `retroshade` (here
--                  `retroshade_enforcing`), `retroshade_recording` and their packed forms.
--   Conversion     retroshade/src/conversion.rs, `from_scval`, `to_sql`, `accepts`, and
--                  `to_sql_checked!`, the macro of postgres-types that asks `accepts` first.
--   Export         retroshade/src/lib.rs, `retroshade_prepare_for_db`.
--   Standalone     retroshade/src/bin/standalone.rs: the source over the database of stellar-core
--                  (`DynamicSnapshot`), the source of one contract (`TestDynamicSnapshot`, which also
--                  stands in retroshade/src/testutils.rs), and `main`. Its result is the text that it
--                  prints.
--   Contracts      examples/deposit, storage, hello_world and soroban-insurance-factory, each in its
--                  src/lib.rs, with the features `mercury` and `retroshade`. A call reads and writes
--                  the environment (`Env`: the instance storage, the emissions, the ledger), and a
--                  transaction whose call traps leaves it as it was, which the host sees to.
--   Tests          runs on small inputs.
--   Base           names of the library, Boolean tests, lists, integers and maps.
--
-- A vector or a `HashMap` is a list; a search of the map takes the latest insertion. An index or a
-- length is a natural number; `idx - shift` is a panic below 0. The loops are structural recursion
-- on what they walk, so no fuel is needed. `from_scval` and the vector of its elements are two
-- functions, and the two data types ScVal and ScVals a vector that holds values.
--
-- Parameters, since their code is not in the repository: the snapshot source of the implementor,
-- the encoders and big integers (`Codec`), the floats and their parser (`Floats`), the host of the
-- virtual machine with the XDR codec and SHA-256 (`Host`), the database of the standalone binary with
-- its codec (`Db`), and the conversions and the deployer of soroban-sdk (`Sdk`, `Deployer`). The
-- random seed of a run is an argument, as are the file that `TestDynamicSnapshot` reads and the
-- JSON writer of `main` (`to_json`). A value that `to_sql` hands on to postgres-types is a `SqlParam`
-- with the type that it is handed on under.
--
-- Not modelled: the tests, which run compiled contracts from disk. The log messages, the act of
-- printing and the expiry of a contract's instance storage have no counterpart. In `update_entries` and `remove_entry` the entries are compared by the equality that
-- the XDR crate derives.
pub mod Base
pub mod Contracts
pub mod Conversion
pub mod Execution
pub mod Export
pub mod Ledger
pub mod Retroshade
pub mod Snapshot
pub mod Standalone
pub mod State
pub mod Svm
pub mod Tests
pub mod Xdr
