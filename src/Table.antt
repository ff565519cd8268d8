-- ===== src/Table.antt =====
-- The forwarder's tables: ndnd/fw/table.
pub mod NextHops
pub mod Pet
pub mod PitEntry
pub mod DeadNonceList
pub mod NetworkRegion
pub mod CsLru
pub mod NameTree
pub mod FibEntry
pub mod FibTree
pub mod FibHashTable
pub mod Rib
pub mod PitCs
