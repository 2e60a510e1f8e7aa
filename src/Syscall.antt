-- ===== src/Syscall.antt =====
-- kernel/syscall: the table of open files, and the calls that take a path.
pub mod Fd
pub mod Paths
