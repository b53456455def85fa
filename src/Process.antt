-- ===== src/Process.antt =====
-- kernel/process: threads, processes and the scheduler.
pub mod Kernel
pub mod Thread
pub mod Proc
pub mod Switch
pub mod Scheduler
pub mod Queue
pub mod Sample
