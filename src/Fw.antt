-- ===== src/Fw.antt =====
-- The forwarding pipelines and strategies: ndnd/fw/fw.
pub mod Packet
pub mod Replication
pub mod Outgoing
pub mod Lookup
pub mod Finalize
pub mod Strategy
pub mod IncomingData
pub mod IncomingInterest
pub mod DataPipeline
pub mod Dispatch
