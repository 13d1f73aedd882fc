-- ===== src/V9/Endless.antt =====
-- A set of length 0 in lib/V9MessageStreamParser.cpp: the scan for the end of a message stays at it.
use mathlib.Core.List.{append-nil}
use libfc.Prelude.{
  ℕ, zero, suc, ◌+◌, ◌≡◌, ◌≤◌, arith, refl, ◌∙◌, List, [], ◌++◌, length, exhausted, ltb, false,
  true, ◌==◌,
}
use libfc.Wire.{encode16}
use libfc.Ipfix.Source.{Buffer, buffer_source, peek, read}
use libfc.Ipfix.Reading.{IsAt, peek_lem, read_lem}
use libfc.Ipfix.Reading.{buffer-IsAt}
use libfc.Ipfix.Parser.{uint16_at}
use libfc.V9.Parser.{scan, parse, parse_message}
use libfc.V9.Header.{Message, header_octets, header_octets_numbers, read_header}
use libfc.V9.Stream.{parse_messages_framed}
use libfc.Ipfix.Content.{ContentHandler}
use libfc.Errors.{return_ok}
use libfc.Ipfix.Source.{buffer}
use libfc.V9.Scan.{IsSetId, scan_round}

peek_set :
    (id n : ℕ) (rest : List ℕ) (src : Buffer)
    → IsAt src (encode16 id ++ (encode16 n ++ rest))
    → peek src 4 ≡ encode16 id ++ encode16 n
unfolding encode16
peek_set id n rest src a = peek_lem src (encode16 id ++ encode16 n) rest a

-- The scan does not test the length of a set, and a set of length 0 is read without any progress: from
-- such a set, with an ID that is not the version of a message, the scan goes on for ever, whatever
-- fuel it is given.
pub scan_endless :
    (fuel id : ℕ) (body rest : List ℕ) (src : Buffer)
    → IsSetId id
    → 24 + length body ≤ 65535
    → IsAt src (encode16 id ++ (encode16 0 ++ rest))
    → scan buffer_source fuel body src ≡ exhausted
unfolding scan
scan_endless zero id body rest src v l a = refl
scan_endless (suc fuel) id body rest src v l a =
    let here = encode16 id ++ (encode16 0 ++ rest) in
    let left = (read_lem src [] here a).1 in
    let fits : 24 + length (body ++ []) ≤ 65535 = rw (append-nil body) l in
    scan_round fuel id 0 body [] here src v refl (omega arith) a (peek_set id 0 rest src a)
    ∙ scan_endless fuel id (body ++ []) rest (read src 0).1 v fits left

-- A message whose header is as it should be, and whose first set has a length of 0 and an ID that is
-- not the version of a message: the parser starts the session and never comes to an end, whatever fuel
-- the scan is given, and whatever follows the set.
pub parse_endless :
    (ch : ContentHandler) (m : Message) (id fuel scan_fuel : ℕ) (rest : List ℕ) (s s' : ch.State)
    → IsSetId id
    → ch.start_session s ≡ return_ok s'
    → parse buffer_source ch
        (suc fuel)
        scan_fuel
        (buffer (header_octets m ++ (encode16 id ++ (encode16 0 ++ rest))))
        s
      ≡ exhausted
unfolding parse parse_message
parse_endless ch m id fuel k rest s s' v e =
    let source = buffer (header_octets m ++ (encode16 id ++ (encode16 0 ++ rest))) in
    let (got, left) =
      read_header m (encode16 id ++ (encode16 0 ++ rest)) source (buffer-IsAt source.buf) in
    let (e0, size) = header_octets_numbers m in
    let long : ltb (length (header_octets m)) 20 ≡ false = ground arith in
    let version : (uint16_at (header_octets m) 0 == 9) ≡ true = ground arith in
    let round = parse_messages_framed ch m fuel k source s' got in
    let stuck = scan_endless k id [] rest (read source 20).1 v (omega arith) left in
    rw (e, round, parse) (rw (long, version, stuck, parse_message) refl)
