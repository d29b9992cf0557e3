-- ===== src/Go.antt =====
-- What the program uses of Go's own values and of its standard library.
pub mod Value
pub mod Path
