-- ===== src/V9/Stream.antt =====
-- A stream of NetFlow v9 messages in a buffer, as V9MessageStreamParser::parse reads it.
use libfc.Prelude.{
  ℕ, zero, suc, ◌+◌, ◌≡◌, ◌<◌, refl, ap, ◌∙◌, arith, true, false, List, [], ◌∷◌, ◌++◌, ltb, ◌==◌,
  length, All, ok,
}
use libfc.Wire.{encode16, encode32}
use libfc.Errors.{Call, ◌>=>◌, >=>-cong}
use libfc.Ipfix.Source.{Buffer, buffer, buffer_source, read, advance}
use libfc.Ipfix.Content.{ContentHandler}
use libfc.Ipfix.Parser.{uint16_at}
use libfc.Ipfix.Reading.{IsAt, buffer-IsAt, read_end, advance-IsAt}
use libfc.Ipfix.Sets.{length-all_sets, all_sets, deliver_all, parse_sets-all_sets}
use libfc.V9.Parser.{
  found, v9_set_ids, scan, message_header, parse_scanned, parse_message, parse_messages, parse,
}
use libfc.V9.Framed.{All-IsSmallSet, scan-all_sets}
use libfc.V9.Header.{
  Message, header_of, header_octets, all_messages, IsSmall, message_header-header_octets,
  header_octets_numbers, read_header, all_messages-Ends,
}

module _ (ch : ContentHandler) where
  open ch use {State, start_session, end_session, start_message, end_message}

  -- The events for a stream.
  abbrev pub deliver_message : Message → State → Call State
  deliver_message m s =
      start_message (header_of m) s >=> λ s1. deliver_all v9_set_ids ch m.sets s1 >=> end_message

  abbrev pub deliver_messages : List Message → State → Call State
  deliver_messages [] s = end_session s
  deliver_messages (m ∷ ms) s = deliver_message m s >=> deliver_messages ms

  -- A message that was scanned whole is handed over.
  parse_scanned-found :
      (k : ℕ) (bytes : List ℕ) (m : Message) (src : Buffer) (s : State)
      (next : Buffer → State → Call State)
      → IsSmall k m
      → message_header bytes (20 + length (all_sets m.sets)) ≡ header_of m
      → parse_scanned buffer_source ch bytes (found (all_sets m.sets) src) s next
        ≡ deliver_message m s >=> next (advance src)
  unfolding parse_scanned
  parse_scanned-found k bytes m src s next v h =
      rw (h, parse_scanned)
        (ap (λ call. call >=> next (advance src))
          (>=>-cong (start_message (header_of m) s) _ _ λ s1.
            ap (λ call. call >=> end_message)
              (parse_sets-all_sets v9_set_ids ch m.sets (length (all_sets m.sets)) s1
                (All-IsSmallSet m.sets v.sets_small) (length-all_sets m.sets))))

  parse_message_framed :
      (k : ℕ) (bytes : List ℕ) (m : Message) (src src' : Buffer) (s : State)
      (next : Buffer → State → Call State)
      → length bytes ≡ 20
      → uint16_at bytes 0 ≡ 9
      → message_header bytes (20 + length (all_sets m.sets)) ≡ header_of m
      → IsSmall k m
      → scan buffer_source k [] src ≡ ok (found (all_sets m.sets) src')
      → parse_message buffer_source ch k bytes src s next
        ≡ deliver_message m s >=> next (advance src')
  unfolding parse_message
  parse_message_framed k bytes m src src' s next l e0 h v f =
      let long : ltb (length bytes) 20 ≡ false = ground arith in
      let version : (uint16_at bytes 0 == 9) ≡ true = ground arith in
      rw (long, version, f, parse_message) (parse_scanned-found k bytes m src' s next v h)

  parse_messages_round :
      (b : ℕ) (bs : List ℕ) (fuel k : ℕ) (src : Buffer) (s : State)
      → (read src 20).0 ≡ b ∷ bs
      → parse_messages buffer_source ch (suc fuel) k src s
        ≡ parse_message buffer_source ch k
            (b ∷ bs)
            (read src 20).1
            s
            (parse_messages buffer_source ch fuel k)
  unfolding parse_messages
  parse_messages_round b bs fuel k src s e = rw (e, parse_messages) refl

  pub parse_messages_framed :
      (m : Message) (fuel k : ℕ) (src : Buffer) (s : State)
      → (read src 20).0 ≡ header_octets m
      → parse_messages buffer_source ch (suc fuel) k src s
        ≡ parse_message buffer_source ch k
            (header_octets m)
            (read src 20).1
            s
            (parse_messages buffer_source ch fuel k)
  unfolding encode16 encode32
  parse_messages_framed m fuel k src s e = parse_messages_round _ _ fuel k src s e

  parse_messages-all_messages :
      (ms : List Message) (fuel k : ℕ) (src : Buffer) (s : State)
      → All (IsSmall k) ms
      → length ms < fuel
      → IsAt src (all_messages ms)
      → parse_messages buffer_source ch fuel k src s ≡ deliver_messages ms s
  unfolding parse_messages
  parse_messages-all_messages ms zero k src s v l a = absurd (omega arith)
  parse_messages-all_messages [] (suc fuel) k src s v l a =
      rw (read_end src 20 a, parse_messages) refl
  parse_messages-all_messages (m ∷ ms) (suc fuel) k src s v l a =
      let (got, left) = read_header m (all_sets m.sets ++ all_messages ms) src a in
      let src1 = (read src 20).1 in
      let (e0, size) = header_octets_numbers m in
      let header = message_header-header_octets k _ m v.0 refl in
      let (src2, f, at) =
        scan-all_sets m.sets k [] (all_messages ms) src1 v.0.sets_small v.0.length_small
          v.0.scan_enough (all_messages-Ends ms) left in
      parse_messages_framed m fuel k src s got
      ∙ (parse_message_framed k (header_octets m) m src1 src2 s
            (parse_messages buffer_source ch fuel k) size e0 header v.0 f
          ∙ >=>-cong (deliver_message m s) _ _ λ s2.
            parse_messages-all_messages ms fuel k (advance src2) s2 v.1 (omega arith)
              (advance-IsAt src2 (all_messages ms) at))

  -- A buffer that holds a sequence of v9 messages, whose headers do not tell their size: parse finds
  -- where each ends, and hands over every message, in order, each between start_message and
  -- end_message, with its size, its header's numbers, the start of the router as base time and exactly
  -- its sets, then the end of the session, up to the first reply that is an error. No set may have the ID
  -- 5 or 9. Fuel for one round more than there are messages, and sets in a message, is enough.
  pub parse_v9-all_messages :
      (ms : List Message) (fuel scan_fuel : ℕ) (s : State)
      → All (IsSmall scan_fuel) ms
      → length ms < fuel
      → parse buffer_source ch fuel scan_fuel (buffer (all_messages ms)) s
        ≡ start_session s >=> deliver_messages ms
  unfolding parse
  parse_v9-all_messages ms fuel k s v l = >=>-cong (start_session s) _ _ λ s1.
      parse_messages-all_messages ms fuel k (buffer (all_messages ms)) s1 v l
        (buffer-IsAt (all_messages ms))
