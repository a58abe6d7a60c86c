-- ===== src/Env/Laws.antt =====
-- The walks of src/env.c over a store in order: they follow the lexical rule, in the fuel given.
pub mod Cells
pub mod Reads
pub mod Writes
pub mod Define
pub mod Assign
pub mod Create
pub mod Sweep
