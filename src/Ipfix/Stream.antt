-- ===== src/Ipfix/Stream.antt =====
-- A stream of IPFIX messages in a buffer, as IPFIXMessageStreamParser::parse reads it.
use libfc.Prelude.{
  ℕ, zero, suc, ◌+◌, ◌-◌, ◌^◌, ◌≡◌, ◌<◌, refl, ◌∙◌, arith, true, false, List, [], ◌∷◌, ◌++◌, some,
  ltb, leb, ◌==◌, ==_refl, length, All,
}
use libfc.Wire.{encode16, encode32, decode_uint16-encode16, decode_uint32-encode32}
use libfc.Errors.{Call, ◌>=>◌, >=>-cong}
use libfc.Handler.State.{MessageHeader}
use libfc.Ipfix.Source.{Buffer, buffer, buffer_source, read, advance}
use libfc.Ipfix.Content.{ContentHandler}
use libfc.Ipfix.Parser.{
  ipfix_set_ids, uint16_at, uint32_at, message_header, parse_body, parse_message, parse_messages,
  parse,
}
use libfc.Ipfix.Reading.{IsAt, buffer-IsAt, read_lem, read_end, advance-IsAt}
use libfc.Ipfix.Sets.{length-all_sets, all_sets, IsSmallSet, deliver_all, parse_sets-all_sets}

-- A message, before it is framed.
pub record Message : Type 0 where
  pub export_time : ℕ
  pub sequence_number : ℕ
  pub observation_domain : ℕ
  pub sets : List (ℕ × List ℕ)

-- Its header, and its octets.
abbrev pub header_of : Message → MessageHeader
header_of m = record {
  version = 10;
  length = 16 + length (all_sets m.sets);
  export_time = m.export_time;
  sequence_number = m.sequence_number;
  observation_domain = m.observation_domain;
  base_time = 0;
}

abbrev pub header_octets : Message → List ℕ
header_octets m =
    encode16 10
    ++ (encode16 (16 + length (all_sets m.sets))
        ++ (encode32 m.export_time
            ++ (encode32 m.sequence_number ++ encode32 m.observation_domain)))

abbrev pub all_messages : List Message → List ℕ
all_messages [] = []
all_messages (m ∷ ms) = header_octets m ++ (all_sets m.sets ++ all_messages ms)

-- The numbers of the message fit their fields.
pub record IsSmall (m : Message) : Type 0 where
  pub length_small : 16 + length (all_sets m.sets) < 2 ^ 16
  pub time_small : m.export_time < 2 ^ 32
  pub sequence_small : m.sequence_number < 2 ^ 32
  pub domain_small : m.observation_domain < 2 ^ 32
  pub sets_small : All IsSmallSet m.sets

message_header-header_octets :
    (m : Message) → IsSmall m → message_header (header_octets m) ≡ header_of m
unfolding message_header uint16_at uint32_at encode16 encode32
message_header-header_octets m v = ground (
  arith,
  decode_uint16-encode16 10 (omega arith),
  decode_uint16-encode16 (16 + length (all_sets m.sets)) v.length_small,
  decode_uint32-encode32 m.export_time v.time_small,
  decode_uint32-encode32 m.sequence_number v.sequence_small,
  decode_uint32-encode32 m.observation_domain v.domain_small,
)

header_octets_numbers :
    (m : Message)
    → IsSmall m
    → (uint16_at (header_octets m) 0 ≡ 10)
      × (uint16_at (header_octets m) 2 ≡ 16 + length (all_sets m.sets))
      × (length (header_octets m) ≡ 16)
unfolding uint16_at encode16 encode32
header_octets_numbers m v = (
  ground (arith, decode_uint16-encode16 10 (omega arith)),
  ground (arith, decode_uint16-encode16 (16 + length (all_sets m.sets)) v.length_small),
  refl,
)

read_header :
    (m : Message) (rest : List ℕ) (src : Buffer)
    → IsAt src (header_octets m ++ rest)
    → ((read src 16).0 ≡ header_octets m) × IsAt (read src 16).1 rest
unfolding encode16 encode32
read_header m rest src a = read_lem src (header_octets m) rest a

module _ (ch : ContentHandler) where
  open ch use {State, start_session, end_session, start_message, end_message}

  -- The events for a stream.
  abbrev pub deliver_messages : List Message → State → Call State
  deliver_messages [] s = end_session s
  deliver_messages (m ∷ ms) s = start_message (header_of m) s >=> λ s1.
      (deliver_all ipfix_set_ids ch m.sets s1 >=> end_message) >=> deliver_messages ms

  -- A body that was read whole is a sequence of sets.
  parse_body-all_sets :
      (m : Message) (s : State)
      → IsSmall m
      → parse_body buffer_source ch (some (all_sets m.sets)) (length (all_sets m.sets)) s
        ≡ deliver_all ipfix_set_ids ch m.sets s >=> end_message
  unfolding parse_body
  parse_body-all_sets m s v =
      let sets =
        parse_sets-all_sets ipfix_set_ids ch m.sets (length (all_sets m.sets)) s v.sets_small
          (length-all_sets m.sets) in
      rw (==_refl (length (all_sets m.sets)), parse_body, sets) refl

  -- The rest of a round, where the header that was read is as given.
  parse_message_framed :
      (bytes : List ℕ) (m : Message) (rest : List ℕ) (src : Buffer) (s : State)
      (next : Buffer → State → Call State)
      → length bytes ≡ 16
      → uint16_at bytes 0 ≡ 10
      → uint16_at bytes 2 ≡ 16 + length (all_sets m.sets)
      → message_header bytes ≡ header_of m
      → IsSmall m
      → IsAt src (all_sets m.sets ++ rest)
      → parse_message buffer_source ch bytes src s next
        ≡ start_message (header_of m) s >=> λ s1.
            (deliver_all ipfix_set_ids ch m.sets s1 >=> end_message)
            >=> next (advance (read src (length (all_sets m.sets))).1)
  unfolding parse_message
  parse_message_framed bytes m rest src s next l e0 e2 h v a =
      let long : ltb (length bytes) 16 ≡ false = ground arith in
      let version : (uint16_at bytes 0 == 10) ≡ true = ground arith in
      let enough : leb 16 (uint16_at bytes 2) ≡ true = ground arith in
      let wanted : uint16_at bytes 2 - 16 ≡ length (all_sets m.sets) = omega arith in
      let (got, left) = read_lem src (all_sets m.sets) rest a in
      rw (long, version, h, parse_message)
        (>=>-cong (start_message (header_of m) s) _ _
          λ s1. rw (enough, wanted, got, parse_body-all_sets m s1 v) refl)

  -- A round of the loop, for a header that was read.
  parse_messages_round :
      (b : ℕ) (bs : List ℕ) (fuel : ℕ) (src : Buffer) (s : State)
      → (read src 16).0 ≡ b ∷ bs
      → parse_messages buffer_source ch (suc fuel) src s
        ≡ parse_message buffer_source ch
            (b ∷ bs)
            (read src 16).1
            s
            (parse_messages buffer_source ch fuel)
  unfolding parse_messages
  parse_messages_round b bs fuel src s e = rw (e, parse_messages) refl

  parse_messages_framed :
      (m : Message) (fuel : ℕ) (src : Buffer) (s : State)
      → (read src 16).0 ≡ header_octets m
      → parse_messages buffer_source ch (suc fuel) src s
        ≡ parse_message buffer_source ch
            (header_octets m)
            (read src 16).1
            s
            (parse_messages buffer_source ch fuel)
  unfolding encode16 encode32
  parse_messages_framed m fuel src s e = parse_messages_round _ _ fuel src s e

  parse_messages-all_messages :
      (ms : List Message) (fuel : ℕ) (src : Buffer) (s : State)
      → All IsSmall ms
      → length ms < fuel
      → IsAt src (all_messages ms)
      → parse_messages buffer_source ch fuel src s ≡ deliver_messages ms s
  unfolding parse_messages
  parse_messages-all_messages ms zero src s v l a = absurd (omega arith)
  parse_messages-all_messages [] (suc fuel) src s v l a =
      rw (read_end src 16 a, parse_messages) refl
  parse_messages-all_messages (m ∷ ms) (suc fuel) src s v l a =
      let (got, left) = read_header m (all_sets m.sets ++ all_messages ms) src a in
      let src1 = (read src 16).1 in
      let (e0, e2, size) = header_octets_numbers m v.0 in
      let round =
        parse_message_framed (header_octets m) m (all_messages ms) src1 s
          (parse_messages buffer_source ch fuel) size e0 e2 (message_header-header_octets m v.0) v.0
          left in
      let src2 = (read src1 (length (all_sets m.sets))).1 in
      let behind : IsAt (advance src2) (all_messages ms) =
        advance-IsAt src2 (all_messages ms)
          (read_lem src1 (all_sets m.sets) (all_messages ms) left).1 in
      parse_messages_framed m fuel src s got
      ∙ (round
          ∙ >=>-cong (start_message (header_of m) s) _ _ λ s1.
            >=>-cong (deliver_all ipfix_set_ids ch m.sets s1 >=> end_message) _ _
              λ s2. parse_messages-all_messages ms fuel (advance src2) s2 v.1 (omega arith) behind)

  -- A buffer that holds a sequence of messages: parse hands over every message, in order, each between
  -- start_message and end_message, with its header's numbers and exactly its sets, then the end of the
  -- session, up to the first reply that is an error. Fuel for one round more than there are messages
  -- is enough.
  pub parse-all_messages :
      (ms : List Message) (fuel : ℕ) (s : State)
      → All IsSmall ms
      → length ms < fuel
      → parse buffer_source ch fuel (buffer (all_messages ms)) s
        ≡ start_session s >=> deliver_messages ms
  unfolding parse
  parse-all_messages ms fuel s v l = >=>-cong (start_session s) _ _ λ s1.
      parse_messages-all_messages ms fuel (buffer (all_messages ms)) s1 v l
        (buffer-IsAt (all_messages ms))
