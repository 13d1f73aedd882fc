-- ===== src/V9.antt =====
-- lib/V9MessageStreamParser.cpp: the parser of a stream of NetFlow v9 messages.
pub mod Parser
pub mod Scan
pub mod Framed
pub mod Header
pub mod Stream
pub mod Endless
