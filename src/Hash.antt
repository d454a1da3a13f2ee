-- ===== src/Hash.antt =====
-- The hash table of fhash/fhash_core.c, from one node up to the open interface.
pub mod Api
pub mod Fnv
pub mod Core
pub mod Mgr
pub mod Node
pub mod Opt
pub mod Str
pub mod Table
pub mod Samples
mod Tests
