-- ===== src/Svm.antt =====
-- internal/chain/svm: what the backend reads from Solana, and the transactions that it builds.
pub mod Idl
pub mod Transaction
pub mod Signatures
