-- ===== src/Env.antt =====
-- Scopes of variables: src/env.c and include/env.h. An `Env*` is an address, an index into the
-- cells of a store, since closures share their parents; a freed cell is `none`.
-- The hash map of a scope is used through the interface `Index`, which `EnvMap` implements.
pub mod Index
pub mod Scope
pub mod Walk
pub mod Sweep
pub mod Sync
pub mod Define
pub mod Laws
mod Tests
