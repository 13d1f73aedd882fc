-- ===== src/Encode.antt =====
-- Encode plans: the class EncodePlan of lib/PlacementExporter.cpp.
-- The constructor, and execute.
pub mod Plan
pub mod Execute
