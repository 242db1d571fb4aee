-- ===== src/ServerCli.antt =====
-- trie_remote/server_cli.py: the commands that start a job, finalize one whose worker is gone, and
-- pass a job's Docker command on.
pub mod Equality
pub mod Reconcile
pub mod Start
pub mod DockerCommand
pub mod Finalized
pub mod Started
pub mod Contract
pub mod Reserved
pub mod Executed
pub mod Submission
pub mod Submitted
pub mod Execute
pub mod Followed
pub mod Tests
