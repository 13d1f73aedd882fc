-- ===== src/Lib.antt =====
-- libfc: a library that collects and exports IPFIX flow records (C++, directory lib).
--
-- A user registers places in memory for information elements in a PlacementTemplate. On the
-- collecting side a MessageStreamParser reads messages from an InputSource and calls a ContentHandler.
-- PlacementContentHandler learns wire templates from template sets; for a data set it looks up the wire
-- template, matches it with the registered templates, builds a DecodePlan and executes it for each
-- record, between two callbacks of a PlacementCollector. On the exporting side a PlacementExporter builds
-- an EncodePlan for a template, executes it to append a record to the current data set, and flushes
-- messages to an ExportDestination.
--
-- Files and sources:
--   Prelude      shared names, lists over native numbers, the outcomes of a call
--   Wire         lib/decode_util.cpp; encode16 and encode32 of lib/PlacementExporter.cpp
--   Constants    lib/Constants.h
--   Errors       lib/ErrorContext.h, lib/Error.h: replies and the macros that pass them on
--   Info         lib/IEType.* (Types, Names), lib/InfoElement.* (Types, Print), lib/IETemplate.*
--                (Template), lib/InfoModel.cpp: Model (the registries), Spec (parseIESpec, with Decimal for
--                what it uses of the standard library), Default (the default tables); Parts, Printed,
--                Shorter, Ends, Registry, Consistent and Untyped prove
--   Octets       lib/BasicOctetArray.*, and the memory that placements point to
--   Placement    lib/PlacementTemplate.*: Template, Wire (wire_template), Size (data_record_size);
--                Form describes the wire form, Laid the sums that registration keeps,
--                Matched the counts of is_match
--   Decode       lib/DecodePlan.*: the constructor (Plan) and execute (Execute); Bounds, Coalesce,
--                Locality, Safety and Typed prove
--   Encode       EncodePlan of lib/PlacementExporter.cpp: Plan and Execute
--   RoundTrip    both plans together: Field, Record, Room, Sized, Agree and
--                Mismatch prove
--   Handler      lib/PlacementContentHandler.*: State, Templates (template sets), Data (data sets);
--                Fields, Learn, Lookup, Total, Truncated, Match and Records prove
--   Ipfix        lib/IPFIXMessageStreamParser.cpp (Parser), lib/InputSource.h and
--                lib/BufferInputSource.cpp (Source), lib/ContentHandler.h (Content); Sets, Reading and
--                Stream prove
--   Sources      lib/FileInputSource.cpp, lib/TCPInputSource.cpp, lib/WandioInputSource.cpp (Base) and
--                lib/UDPInputSource.cpp (Udp); Same, File and Offsets prove
--   V9           lib/V9MessageStreamParser.cpp (Parser); Scan, Framed, Header, Stream and Endless prove
--   Collector    lib/PlacementCollector.cpp (Base) and lib/libfc.cpp (Binding, Specfile); Unhandled proves
--   Stat         lib/StatParser.cpp: Line and Parser; Numbers, Printed, Bounds and Packets prove
--   Exporter     PlacementExporter of lib/PlacementExporter.cpp: State, Flush, Place; Message,
--                Announced, First, Balance, Session, Sent and Again prove
--   Tests        the theorems at concrete inputs
--
-- The model. A call gives an Outcome: a result, a C++ exception, a failed assertion, or undefined
-- behaviour. Handlers reply with an error or none beside their new state (Call). Octets are numbers
-- below 256, a pointer into a buffer is the list of what follows it up to the end that the code
-- checks, and integers of a fixed width wrap around where the code lets them. Objects are compared by
-- address, as in the source; memory maps an address to a native value by its octets or to an octet array.
-- What the build and the machine fix (the byte order, the conversion between float and double, the value
-- of a member that no constructor sets) is a parameter; so are the callbacks of the user, the
-- time and the destination's preferred size.
--
-- Fuel. The loops over template records, sets and records of a data set take the length of what is left
-- as fuel, since a round that goes on reads at least one octet of it; a loop that runs out of fuel has
-- the outcome exhausted, which for the records of a data set stands for records of no octets, where the
-- code does not come to an end. The loop over messages takes its fuel from the caller, since a source may
-- never end.
--
-- Texts are lists of code points. parseIESpec takes the length of the text as fuel, since every round
-- reads a character. The scan of NetFlow v9 takes its fuel from the caller: it need not end.
--
-- Not modelled: what a handler makes of a set shorter than its own header, where the length that
-- it is told wraps around (the model gives up with undefined behaviour), the calls of the
-- operating system, which are parameters, destinations, printing of records, logging and the text
-- of errors, locks, the calls of the C interface that only forward, the programs, and the cache
-- of matched templates, which the code never reads.
pub mod Prelude
pub mod V9
pub mod Sources
pub mod Stat
pub mod Wire
pub mod Info
pub mod Octets
pub mod Placement
pub mod Decode
pub mod Encode
pub mod Collector
pub mod Constants
pub mod Errors
pub mod Handler
pub mod Ipfix
pub mod Exporter
pub mod RoundTrip
pub mod Tests
