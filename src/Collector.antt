-- ===== src/Collector.antt =====
-- lib/PlacementCollector.h and lib/PlacementCollector.cpp: a content handler and the parser of a
-- protocol, put together.
-- The child Binding is lib/libfc.cpp.
pub mod Base
pub mod Binding
pub mod Unhandled
pub mod Specfile
