-- ===== src/Firefly.antt =====
-- Suggestions for names that are not defined: src/firefly.c.
pub mod Distance
pub mod Rows
mod Suggest
mod Nearest
mod Tests
