-- ===== src/Info.antt =====
-- Information elements and their types: lib/IEType.h, lib/IEType.cpp, lib/InfoElement.h,
-- lib/InfoElement.cpp, and the length constant of lib/Constants.h.
-- The child Template is lib/IETemplate.cpp, the child Model the registry of lib/InfoModel.cpp.
pub mod Types
pub mod Template
pub mod Model
pub mod Decimal
pub mod Names
pub mod Spec
pub mod Print
pub mod Parts
pub mod Printed
pub mod Shorter
pub mod Ends
pub mod Registry
pub mod Consistent
pub mod Untyped
pub mod Default
