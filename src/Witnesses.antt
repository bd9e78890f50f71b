-- ===== src/Witnesses.antt =====
-- The theorems at concrete inputs, at which their conditions hold.
pub mod OracleRuns
pub mod NodeRuns
pub mod IndexerRuns
pub mod OracleTableRuns
pub mod SvmRuns
pub mod JudgeRuns
