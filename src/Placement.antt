-- ===== src/Placement.antt =====
-- lib/PlacementTemplate.cpp: information elements and the memory locations placed for them.
-- The child Wire is the template's wire form, the child Size the size of a data record; Form, Laid and
-- Matched prove.
pub mod Template
pub mod Wire
pub mod Size
pub mod Form
pub mod Laid
pub mod Matched
