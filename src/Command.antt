-- ===== src/Command.antt =====
-- types/play.go: the commands, from `ToCommand` on.
pub mod Pieces
pub mod Arguments
pub mod Entities
pub mod Ssh
pub mod Build
pub mod Total
pub mod Reading
pub mod Argv
pub mod Spelling
pub mod Words
pub mod Local
pub mod Tests
