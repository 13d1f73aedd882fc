-- ===== src/Decode.antt =====
-- Decode plans: lib/DecodePlan.h and lib/DecodePlan.cpp.
-- The constructor and execute are in the first two children; the others prove.
pub mod Plan
pub mod Execute
pub mod Bounds
pub mod Locality
pub mod Safety
pub mod Typed
pub mod Coalesce
