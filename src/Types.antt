-- ===== src/Types.antt =====
-- The package `types`: the provisioner's configuration, read from Terraform's values.
pub mod Helpers
pub mod Schema
pub mod Playbook
pub mod Module
pub mod GalaxyInstall
pub mod Defaults
pub mod RemoteSettings
pub mod AnsibleSshSettings
pub mod Play
pub mod Tests
