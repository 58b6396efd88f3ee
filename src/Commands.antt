-- ===== src/Commands.antt =====
-- Running commands: what is kept of their output.
pub mod OutputTail
pub mod Result
mod Witnesses
