-- ===== src/EnvMap.antt =====
-- The hash map of a scope, src/gc/env_hashmap.c and include/env_hashmap.h: open addressing with
-- Robin Hood probing. `Table` has the code; `Order`, `Lookup`, `Insert`, `Grow` and `Size` prove it;
-- `AsIndex` shows that it is the index that `Env` relies on.
pub mod Table
pub mod Order
pub mod Lookup
pub mod Place
pub mod Insert
pub mod Update
pub mod Put
pub mod Grow
pub mod Size
pub mod AsIndex
mod Tests
