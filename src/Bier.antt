-- ===== src/Bier.antt =====
-- Bit Index Explicit Replication: ndnd/fw/fw/bier.go and the replication loop of
-- ndnd/fw/fw/bier_strategy.go.
pub mod Bits
pub mod Bift
