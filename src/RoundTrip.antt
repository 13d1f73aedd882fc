-- ===== src/RoundTrip.antt =====
-- What the exporter of lib/PlacementExporter.cpp writes, lib/DecodePlan.cpp reads back.
-- Field is one value, Record a data record; Sized compares data_record_size with what is written.
pub mod Field
pub mod Record
pub mod Agree
pub mod Mismatch
pub mod Room
pub mod Sized
