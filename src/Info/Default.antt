-- ===== src/Info/Default.antt =====
-- lib/InfoModel.cpp: the default tables of elements, InfoModel::defaultIPFIX and InfoModel::default5103.
pub mod Ipfix1
pub mod Ipfix2
pub mod Ipfix3
pub mod Reverse1
pub mod Reverse2
pub mod Reverse3
pub mod Tables
pub mod Known
pub mod Complete
