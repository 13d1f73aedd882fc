-- ===== src/Handler.antt =====
-- lib/PlacementContentHandler.cpp: the receiver of the parser's events.
-- State is the object, Templates reads template sets, Data reads data sets.
pub mod State
pub mod Templates
pub mod Data
pub mod Fields
pub mod Learn
pub mod Lookup
pub mod Total
pub mod Truncated
pub mod Match
pub mod Records
