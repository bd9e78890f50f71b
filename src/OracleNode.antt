-- ===== src/OracleNode.antt =====
-- The oracle node, internal/oraclenode/: prices, the fetcher and the node's step.
pub mod Price
pub mod Fetch
pub mod Node
