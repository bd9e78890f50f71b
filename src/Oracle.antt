-- ===== src/Oracle.antt =====
-- internal/oracle: independent medianization, outlier detection, missed-round judgement, and the
-- executor of slash decisions. A `types.Raw` is an on-chain uint256: a natural number, with nil
-- read as zero by every method.
pub mod Aggregate
pub mod Missed
pub mod Executor
pub mod Aggregator
pub mod Judge
