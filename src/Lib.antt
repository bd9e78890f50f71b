-- ===== src/Lib.antt =====
-- Aegis Protocol is a vault with an oracle, a governor and private actions, on several chains. Its Go
-- backend reads the chains and acts on them. This library models the backend's own logic: what the
-- oracle decides and executes, what an oracle node reports, how the indexer turns events into rows, and
-- how the Solana client reads events and builds transactions.
--
-- The parts and their files (paths from the repository's root):
--
-- Oracle.Aggregate models backend/internal/oracle/aggregate.go: `median`, `average`, `deviation` and
-- `detect_outliers` are the functions of those names. A `types.Raw` is a number: it is a uint256, and
-- nil reads as zero. Oracle.Missed models backend/internal/oracle/missed.go: `judge_round` is
-- JudgeRound and `penalties_for` is PenaltiesFor. Oracle.Aggregator models of
-- backend/internal/oracle/aggregator.go what a round's submissions lead to: the partition by signature,
-- the service's own median, and the charges; the writes of its analysis are left out. Oracle.Judge
-- models the rest of that file, JudgeMisses, over the verdicts of Oracle.Missed and the statements of
-- backend/internal/db/oracle_misses.go: `judge_misses` recurs on what is left of BatchSize. Oracle.Executor models
-- backend/internal/oracle/executor.go with the statements of backend/internal/db/oracle_execution.go:
-- `step` is Executor.Step over the rows of oracle_slashings of one chain, and what the chain answers to
-- a penalty is a parameter.
--
-- OracleNode.Price models backend/internal/oraclenode/price.go: `parse_scaled` and `format_scaled`, on
-- texts of bytes. The printing of a number takes its value and one as fuel, which exceeds the number of
-- its digits. OracleNode.Fetch models backend/internal/oraclenode/fetch.go: a source and the context
-- are parameters, and the order in which the goroutines of Price finish is a list. The loop of
-- fetchWithBackoff recurs on the attempts left. It calls Oracle.Aggregate. OracleNode.Node models
-- backend/internal/oraclenode/node.go: `step` is Node.Step, over a chain and a clock that are
-- parameters, and calls OracleNode.Fetch.
--
-- Indexer.Event models backend/internal/chain/client.go and the field readers of
-- backend/internal/indexer/vault.go and backend/internal/indexer/oracle.go. Indexer.Loop models
-- backend/internal/indexer/indexer.go with backend/internal/db/cursor.go: `step` fetches the events of
-- one batch, gives each to every handler, saves the cursor and only then moves it. The chain client's
-- answers are the parameter `Client`. Indexer.Vault, Indexer.Zk and Indexer.Governance are the
-- handlers, backend/internal/indexer/vault.go, backend/internal/indexer/zk.go and
-- backend/internal/indexer/governance.go, each with the statements that it runs
-- (backend/internal/db/vault.go, backend/internal/db/assets.go, backend/internal/db/zk.go; those of
-- backend/internal/db/governance.go are in Indexer.GovernanceTables). A table is the list of its rows,
-- and Indexer.Table has the two kinds of insert. The chain readers and the text form of identities are
-- fields of each handler's record. Indexer.Rounds and Indexer.Staking are the handlers of
-- backend/internal/indexer/oracle.go and backend/internal/indexer/oracle_staking.go, over the
-- statements of backend/internal/db/oracle.go in Indexer.RoundTables, Indexer.StakingTables and
-- Indexer.SlashTables; Indexer.Receiver is backend/internal/indexer/governance_receiver.go with
-- backend/internal/db/governance_remote.go. Where a constraint of backend/migrations can refuse a row of
-- these tables, the statement fails, with `foreign_key` or `store_failed`. Indexer.Again, Indexer.Grown and Indexer.Distinct say what the proofs on the
-- handlers share: an event delivered again, tables that grow, and rows with distinct keys. The
-- intervals of Indexer.Staking are those that Oracle.Missed judges by.
--
-- Svm.Idl models backend/internal/chain/svm/idl.go: `decode_fields`, `decode_event` and
-- `decode_account`, whose payloads are those of Indexer.Event. An offset into the data is the bytes that
-- are left, and a map of layouts is a list in one order of iteration. Svm.Transaction models
-- backend/internal/chain/svm/tx.go: `build_transaction` is BuildTransaction, where signing is a
-- function of each key pair. The loop of compactU16 recurs on fuel, one more than the number, which it
-- divides by 128 at each turn. Svm.Signatures models signaturesInRange of
-- backend/internal/chain/svm/client.go, over a node that is a parameter: its loop recurs on fuel, and one
-- turn more than the address has signatures is enough.
--
-- Base has the numbers, lists, texts (lists of byte codes), sorting and effects. Code over the database
-- is an `Action` on a `World`: the state, and for each pool call to come whether it fails. A failed
-- call changes nothing and returns its error, so a theorem over all worlds is one about errors at every
-- call, and `quiet` is the world in which none fails. A transaction is one call.
--
-- The child modules hold the proofs, Witnesses the concrete runs.
--
-- Bounds: numbers are unbounded where the source has uint256 amounts; block numbers and instants are
-- taken below 2^63, and a conversion to 64 bits keeps the low 64 bits (`low64`). White space is the
-- ASCII one. Delays are left out but for whether the context ended in one.
--
-- Not modelled: logs and metrics, the tickers that call each step, the HTTP sources and the RPC clients
-- (I/O), the JSON of a program's interface, the writes of the aggregator's analysis, the read queries and the API, the
-- secrets providers, and the parts in other languages (contracts, solana, zk, frontend).
pub mod Base
pub mod Oracle
pub mod OracleNode
pub mod Indexer
pub mod Svm
pub mod Witnesses
