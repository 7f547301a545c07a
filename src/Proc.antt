-- ===== src/Proc.antt =====
-- proc/: identifiers, descriptors, the ready queue and the scheduler.
mod Tests
pub mod Ids
pub mod Queue
pub mod Sched
pub mod Create
pub mod Destroy
