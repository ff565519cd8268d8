-- ===== src/Dv.antt =====
-- The tables of distance-vector routing: ndnd/dv/table.
pub mod Rib
pub mod Fib
