-- ===== src/Mode.antt =====
-- mode/: how the plays are carried out.
pub mod ConnectionInfo
pub mod Creation
pub mod Retry
pub mod Hosts
pub mod SshConfig
pub mod KeyScan
pub mod HostKeys
pub mod LocalPlays
pub mod LocalRun
pub mod Remote
pub mod Tests
