-- ===== src/Encoding.antt =====
-- Names and their TLV encoding: ndnd/std/encoding.
pub mod Name
pub mod BigEndian
pub mod Numbers
pub mod Components
