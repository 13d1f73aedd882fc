-- ===== src/Tests.antt =====
-- The theorems at concrete inputs. Data holds the inputs.
pub mod Data
pub mod Records
pub mod Templates
pub mod Streams
pub mod Exports
pub mod Placing
pub mod DataSets
pub mod V9
pub mod Specs
pub mod Stats
pub mod Collectors
pub mod Files
