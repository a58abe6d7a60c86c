-- ===== src/LilyBox.antt =====
-- The sandbox: src/lilybox/lilybox.c and lilybox.h, and src/sandbox_module.c on top of it.
pub mod Capability
pub mod Checks
pub mod Manifest
pub mod Session
pub mod Handles
pub mod Reach
pub mod Flags
pub mod Limits
pub mod Filter
pub mod Granted
mod Tests
