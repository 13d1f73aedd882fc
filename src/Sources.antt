-- ===== src/Sources.antt =====
-- The other sources: lib/FileInputSource.cpp, lib/TCPInputSource.cpp, lib/WandioInputSource.cpp and
-- lib/UDPInputSource.cpp. Base holds the first three, over what the operating system or the wandio
-- library gives, Udp the last; Offsets is about the offsets and short reads, Same about sources that are
-- alike, File about files that hold messages.
pub mod Base
pub mod Same
pub mod File
pub mod Offsets
pub mod Udp
