-- ===== src/Stat.antt =====
-- lib/StatParser.h and lib/StatParser.cpp: the parser of `stat' files, of which it reads the P-lines.
-- Line is the text of a line, Parser the state, Numbers is about the checks against overflow, Printed
-- about lines as they are written, and Packets about a whole file.
pub mod Line
pub mod Parser
pub mod Numbers
pub mod Printed
pub mod Packets
pub mod Bounds
