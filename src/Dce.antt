-- ===== src/Dce.antt =====
-- The pass that removes dead code, src/dce.c.
mod Names
mod Used
mod Remove
mod Reads
mod Collected
mod Safe
mod Mentions
mod Clean
mod Tests
