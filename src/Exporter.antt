-- ===== src/Exporter.antt =====
-- The class PlacementExporter of lib/PlacementExporter.cpp.
-- State is the object, Flush writes a message, Place adds a record; Message and Announced say what a
-- message holds, First, Balance and Session what place_values leaves, Sent what a parser then gets, and
-- Again what follows a flush.
pub mod State
pub mod Flush
pub mod Place
pub mod Message
pub mod Again
pub mod Session
pub mod Sent
pub mod Announced
pub mod Balance
pub mod First
