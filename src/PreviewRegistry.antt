-- ===== src/PreviewRegistry.antt =====
-- trie_remote/preview_registry.py: the class `PreviewRegistry`, which hands host names of the
-- gateway to the services of jobs.
pub mod Served
pub mod History
pub mod Probe
pub mod Site
pub mod Containers
pub mod Authority
pub mod Publish
pub mod Unpublish
pub mod Prepared
pub mod Polling
pub mod Files
pub mod Transaction
pub mod Published
pub mod Withdrawn
pub mod Sorting
pub mod Listed
pub mod Cleared
pub mod LongSlot
pub mod Tests
