-- ===== src/Provisioner.antt =====
-- provisioner/resource_provisioner.go: how the configuration is validated, read and applied.
pub mod Validate
pub mod Config
pub mod Apply
pub mod Tests
