-- ===== src/Indexer.antt =====
-- internal/indexer: chain events into rows.
pub mod Event
pub mod Loop
pub mod Table
pub mod Vault
pub mod Zk
pub mod GovernanceTables
pub mod Governance
pub mod Grown
pub mod Distinct
pub mod Again
pub mod RoundTables
pub mod Rounds
pub mod StakingTables
pub mod SlashTables
pub mod Staking
pub mod Receiver
