-- ===== src/Tests/Stats.antt =====
-- The theorems on statistics files at concrete inputs.
use libfc.Prelude.{
  true, false, ◌≡◌, arith, refl, [], ◌∷◌, ◌++◌, none, some, codes, leb, if◌then◌else◌,
}
use libfc.Info.Decimal.{read_digits, is_digit, is_space, print_number, print_digits}
use libfc.Stat.Line.{
  Packet, parse_digits, parse_p, skip_time, skip_digits, skip_spaces, expect, expect_gap,
  parse_uint16, parse_uint8, take_delim, parse_address,
}
use libfc.Stat.Parser.{good_state, next_p, find_p, behind_p}
use libfc.Stat.Numbers.{parse_digits-read_digits}
use libfc.Stat.Printed.{IsPacket, print_p, print_address, parse_p-print_p}
use libfc.Stat.Bounds.{parse_p-IsPacket}
use libfc.Stat.Packets.{parser_at, next_p-print_p, next_p_stops}

abbrev packet : Packet
packet = record { length = 1420; source_address = (192, 168, 0, 255); port = 65535 }

packet-IsPacket : IsPacket packet
packet-IsPacket = record {
  length_small = omega arith;
  first_small = omega arith;
  second_small = omega arith;
  third_small = omega arith;
  fourth_small = omega arith;
  port_small = omega arith;
}

packet_printed : print_p 3 12 5 packet ≡ codes " 3 12.5 1420 192.168.0.255:65535"
unfolding print_p print_address print_number print_digits
packet_printed = refl

parse_digits-read_digits_example : parse_digits 255 0 (codes "256.") ≡ (
    if leb (read_digits 0 (codes "256.")).0 255 then some (read_digits 0 (codes "256.")) else none)
parse_digits-read_digits_example =
    parse_digits-read_digits 255 0 (codes "256.") (omega arith) (omega arith)

parse_p-IsPacket_example : IsPacket packet
parse_p-IsPacket_example =
    parse_p-IsPacket (print_p 3 12 5 packet) packet (parse_p-print_p 3 12 5 packet packet-IsPacket)

comment_other : behind_p (codes "# packets") ≡ none
unfolding behind_p
comment_other = refl

next_p-print_p_example :
    next_p (
      parser_at
        ((codes "# packets" ∷ []) ++ ((b'P' ∷ print_p 3 12 5 packet) ∷ []))
        true
        false
        0
        good_state)
    ≡ (some packet, parser_at [] true false 2 good_state)
next_p-print_p_example =
    next_p-print_p (codes "# packets" ∷ []) [] 3 12 5 0 packet true false (comment_other, tt)
      packet-IsPacket

at_end : (next_p (parser_at [] true false 2 good_state)).0 ≡ none
unfolding next_p find_p
at_end = refl

next_p_stops_example :
    next_p (next_p (parser_at [] true false 2 good_state)).1
    ≡ (none, (next_p (parser_at [] true false 2 good_state)).1)
next_p_stops_example = next_p_stops (parser_at [] true false 2 good_state) at_end

-- An octet without digits is taken for 0, and so is a port.
empty_octets :
    parse_p (codes " 3 12.5 1420 1..2.3:")
    ≡ some (record { length = 1420; source_address = (1, 0, 2, 3); port = 0 })
unfolding parse_p skip_time skip_digits skip_spaces expect expect_gap parse_uint16 parse_uint8
    take_delim parse_address parse_digits is_digit is_space
empty_octets = refl
