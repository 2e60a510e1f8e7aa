-- ===== src/Util.antt =====
-- kernel/util: byte strings, spin locks and formatted output.
pub mod Str
pub mod Spin
pub mod Print
