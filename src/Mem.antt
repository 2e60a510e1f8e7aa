-- ===== src/Mem.antt =====
-- kernel/mem: pages of physical memory, and the slots that stand on them.
pub mod Pages
pub mod Slots
pub mod Words
pub mod Vm
pub mod Heap
mod Examples
