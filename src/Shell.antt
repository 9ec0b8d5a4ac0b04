-- ===== src/Shell.antt =====
-- The shell with pipes of hw4/part2.
pub mod Strtok
pub mod Redirect
pub mod Pipeline
pub mod Wait
pub mod Args
pub mod Builtin
pub mod Turn
mod Tests
