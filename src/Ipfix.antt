-- ===== src/Ipfix.antt =====
-- lib/IPFIXMessageStreamParser.cpp: the parser of a stream of IPFIX messages.
-- Source is lib/InputSource.h with lib/BufferInputSource.cpp, Content the class of
-- lib/ContentHandler.h, Parser the parser.
pub mod Source
pub mod Content
pub mod Parser
pub mod Sets
pub mod Reading
pub mod Stream
