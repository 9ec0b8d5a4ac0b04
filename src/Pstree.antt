-- ===== src/Pstree.antt =====
-- pstree (hw3/part2.c): the process table and its tree. `Table` holds `struct Proc`, and each other
-- module one group of functions, with what is proved of them in its children.
pub mod Table
pub mod Collect
pub mod Root
pub mod Make
pub mod Forest
pub mod Mark
pub mod Drop
pub mod Print
pub mod Options
mod Tests
