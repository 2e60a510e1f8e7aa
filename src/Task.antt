-- ===== src/Task.antt =====
-- kernel/task: the numbers of tasks, their states, and the families of tasks.
pub mod Tid
pub mod Sched
pub mod SleepLock
