-- ===== src/Scheduler.antt =====
-- trie_remote/scheduler.py: disk admission and the durable FIFO resource pool.
pub mod Disk
pub mod Tests
pub mod Units
pub mod Tickets
pub mod Slots
pub mod Stale
pub mod Pool
pub mod Snapshot
pub mod Report
pub mod Permits
pub mod Superseding
pub mod Supersession
pub mod Unfiled
pub mod Confusion
pub mod Clocks
pub mod Names
pub mod Admission
pub mod Fifo
pub mod Exclusion
