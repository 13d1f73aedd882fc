-- ===== src/V9/Header.antt =====
-- The header of a NetFlow v9 message, which lib/V9MessageStreamParser.cpp reads.
use libfc.Prelude.{
  ℕ, ◌+◌, ◌-◌, ◌*◌, ◌%◌, ◌^◌, ◌≡◌, ◌≤◌, ◌<◌, refl, arith, List, [], ◌∷◌, ◌++◌, length, All,
}
use libfc.Wire.{decode_uint16, encode16, encode32, decode_uint16-encode16, decode_uint32-encode32}
use libfc.Handler.State.{MessageHeader}
use libfc.Ipfix.Source.{Buffer, read, peek}
use libfc.Ipfix.Parser.{decode_set_header, uint16_at, uint32_at}
use libfc.Ipfix.Reading.{IsAt, read_lem, peek_lem, peek_end}
use libfc.Ipfix.Sets.{all_sets}
use libfc.V9.Parser.{scan, scan_set, message_header}
use libfc.V9.Framed.{IsV9Set, Ends}

-- A message, before it is framed. The time is in seconds, the time since the start of the router in
-- milliseconds; `count` is the number of records, which the parser does not read.
pub record Message : Type 0 where
  pub count : ℕ
  pub uptime : ℕ
  pub export_time : ℕ
  pub sequence_number : ℕ
  pub source_id : ℕ
  pub sets : List (ℕ × List ℕ)

-- What start_message is told of it, and the octets of its header.
abbrev pub header_of : Message → MessageHeader
header_of m = record {
  version = 9;
  length = 20 + length (all_sets m.sets);
  export_time = m.export_time;
  sequence_number = m.sequence_number;
  observation_domain = m.source_id;
  base_time = (m.export_time * 1000 + (2 ^ 64 - m.uptime)) % 2 ^ 64;
}

abbrev pub header_octets : Message → List ℕ
header_octets m =
    encode16 9
    ++ (encode16 m.count
        ++ (encode32 m.uptime
            ++ (encode32 m.export_time ++ (encode32 m.sequence_number ++ encode32 m.source_id))))

abbrev pub all_messages : List Message → List ℕ
all_messages [] = []
all_messages (m ∷ ms) = header_octets m ++ (all_sets m.sets ++ all_messages ms)

-- The numbers of the message fit their fields, and the message the parser's memory, with room for
-- the peek behind it.
pub record IsSmall (scan_fuel : ℕ) (m : Message) : Type 0 where
  pub length_small : 24 + length (all_sets m.sets) ≤ 65535
  pub uptime_small : m.uptime < 2 ^ 32
  pub time_small : m.export_time < 2 ^ 32
  pub sequence_small : m.sequence_number < 2 ^ 32
  pub source_small : m.source_id < 2 ^ 32
  pub sets_small : All IsV9Set m.sets
  pub scan_enough : length m.sets < scan_fuel

pub message_header-header_octets :
    (scan_fuel n : ℕ) (m : Message)
    → IsSmall scan_fuel m
    → n ≡ 20 + length (all_sets m.sets)
    → message_header (header_octets m) n ≡ header_of m
unfolding message_header uint16_at uint32_at encode16 encode32
message_header-header_octets k n m v e = ground (
  arith,
  decode_uint16-encode16 9 (omega arith),
  decode_uint32-encode32 m.uptime v.uptime_small,
  decode_uint32-encode32 m.export_time v.time_small,
  decode_uint32-encode32 m.sequence_number v.sequence_small,
  decode_uint32-encode32 m.source_id v.source_small,
)

pub header_octets_numbers :
    (m : Message) → (uint16_at (header_octets m) 0 ≡ 9) × (length (header_octets m) ≡ 20)
unfolding uint16_at encode16 encode32
header_octets_numbers m = (ground (arith, decode_uint16-encode16 9 (omega arith)), refl)

pub read_header :
    (m : Message) (rest : List ℕ) (src : Buffer)
    → IsAt src (header_octets m ++ rest)
    → ((read src 20).0 ≡ header_octets m) × IsAt (read src 20).1 rest
unfolding encode16 encode32
read_header m rest src a = read_lem src (header_octets m) rest a

-- The scan ends at the end of the buffer, and before a message.
nil-Ends : Ends []
unfolding scan decode_set_header
nil-Ends fuel body src a = rw (peek_end src 4 a, scan) refl

peek_header :
    (m : Message) (rest : List ℕ) (src : Buffer)
    → IsAt src (header_octets m ++ rest)
    → peek src 4 ≡ encode16 9 ++ encode16 m.count
unfolding encode16
peek_header m rest src a =
    peek_lem src (encode16 9 ++ encode16 m.count)
      ((encode32 m.uptime
          ++ (encode32 m.export_time ++ (encode32 m.sequence_number ++ encode32 m.source_id)))
        ++ rest)
      a

header_octets-Ends : (m : Message) (rest : List ℕ) → Ends (header_octets m ++ rest)
unfolding scan scan_set decode_set_header encode16 decode_uint16
header_octets-Ends m rest fuel body src a = rw (peek_header m rest src a, scan) refl

pub all_messages-Ends : (ms : List Message) → Ends (all_messages ms)
all_messages-Ends [] = nil-Ends
all_messages-Ends (m ∷ ms) = header_octets-Ends m (all_sets m.sets ++ all_messages ms)
