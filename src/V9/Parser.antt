-- ===== src/V9/Parser.antt =====
-- lib/V9MessageStreamParser.cpp: V9MessageStreamParser::parse, over any source and any handler.
use libfc.Prelude.{
  ℕ, zero, suc, ◌+◌, ◌-◌, ◌*◌, ◌%◌, ◌^◌, List, [], ◌∷◌, ◌++◌, none, some, ltb, leb, ◌==◌, not,
  if◌then◌else◌, length, Outcome, ok, exhausted, assert, ◌>>◌, ◌>>=◌,
}
use libfc.Constants.{
  v9_version, v5_version, v9_message_header_len, v9_set_header_len, v9_template_set_id,
  v9_option_template_set_id, v9_min_data_set_id, max_message_len,
}
use libfc.Errors.{
  Severity, Error, Call, return_error, recoverable, fatal, short_header, message_version_number,
  short_body, system_error, long_set, input_source_cant_peek, ◌>=>◌,
}
use libfc.Handler.State.{MessageHeader}
use libfc.Ipfix.Source.{InputSource}
use libfc.Ipfix.Content.{ContentHandler}
use libfc.Ipfix.Parser.{SetIds, decode_set_header, uint16_at, uint32_at, parse_sets}

abbrev pub v9_set_ids : SetIds
v9_set_ids = record {
  template_set = v9_template_set_id;
  options_template_set = v9_option_template_set_id;
  min_data_set = v9_min_data_set_id;
}

-- How the scan for the end of a message ends: with the octets behind the header and the source, or
-- with an error.
pub data Scanned (S : Type 0) : Type 0 where
  found : List ℕ → S → Scanned S
  refused : Severity → Error → Scanned S

module _ (is : InputSource) where
  -- A round of the scan, given the set header that was peeked, if four octets were; `next` is the rest
  -- of the scan. The set is appended to the message, which has a header and `body` so far.
  unfoldable pub scan_set :
      List ℕ
      → is.State
      → (ℕ × ℕ × List ℕ)
      → (List ℕ → is.State → Outcome (Scanned is.State))
      → Outcome (Scanned is.State)
  scan_set body src (set_id, set_length, _) next =
      let message_size = v9_message_header_len + length body in
      if set_id == v9_version
      then ok (found body src)
      else if set_id == v5_version
      then ok (refused recoverable message_version_number)
      else if ltb max_message_len (message_size + set_length)
      then ok (refused recoverable long_set)
      else (let (bytes, src1) = is.read src set_length in
          elim bytes [
            | none ↦ ok (refused recoverable short_body)
            | some set ↦
                if not (length set == set_length)
                then ok (refused recoverable short_body)
                else assert (leb (message_size + set_length + v9_set_header_len) max_message_len)
                  >> next (body ++ set) src1
          ])

  -- The scan over the sets of a message, on fuel, which reads them. It ends before what looks like the
  -- header of a message, or where fewer octets than a set header's are left.
  unfoldable pub scan : ℕ → List ℕ → is.State → Outcome (Scanned is.State)
  scan zero body src = exhausted
  scan (suc fuel) body src = elim (is.peek src v9_set_header_len) [
    | none ↦ ok (refused fatal system_error)
    | some bytes ↦ elim (decode_set_header bytes) [
      | none ↦ ok (found body src)
      | some header ↦ scan_set body src header (scan fuel)
    ]
  ]

-- What start_message is told, from the octets of a header and the size that the scan found. The base
-- time is a `uint64_t`.
unfoldable pub message_header : List ℕ → ℕ → MessageHeader
message_header m message_size = record {
  version = uint16_at m 0;
  length = message_size;
  export_time = uint32_at m 8;
  sequence_number = uint32_at m 12;
  observation_domain = uint32_at m 16;
  base_time = (uint32_at m 8 * 1000 + (2 ^ 64 - uint32_at m 4)) % 2 ^ 64;
}

module _ (is : InputSource) (ch : ContentHandler) where
  open ch use {State, start_session, end_session, start_message, end_message}

  -- The part of a round behind the scan, up to the next read; `next` is the rest of the loop.
  unfoldable pub parse_scanned :
      List ℕ → Scanned is.State → State → (is.State → State → Call State) → Call State
  parse_scanned bytes (refused severity e) s next = return_error severity e s
  parse_scanned bytes (found body src) s next =
      (start_message (message_header bytes (v9_message_header_len + length body)) s >=> λ s1.
      parse_sets v9_set_ids ch (length body) body s1 >=> end_message)
      >=> next (is.advance_message_offset src)

  -- A round of the loop, given its header. Each scan has `scan_fuel`.
  unfoldable pub parse_message :
      ℕ → List ℕ → is.State → State → (is.State → State → Call State) → Call State
  parse_message scan_fuel bytes src s next =
      if ltb (length bytes) v9_message_header_len
      then return_error recoverable short_header s
      else if not (uint16_at bytes 0 == v9_version)
      then return_error recoverable message_version_number s
      else scan is scan_fuel [] src >>= λ scanned. parse_scanned bytes scanned s next

  -- The loop over the messages, on fuel.
  unfoldable pub parse_messages : ℕ → ℕ → is.State → State → Call State
  parse_messages zero scan_fuel src s = exhausted
  parse_messages (suc fuel) scan_fuel src s =
      let (header, src1) = is.read src v9_message_header_len in
      elim header [
        | none ↦ return_error fatal system_error s
        | some [] ↦ end_session s
        | some (b ∷ bs) ↦ parse_message scan_fuel (b ∷ bs) src1 s (parse_messages fuel scan_fuel)
      ]

  -- V9MessageStreamParser::parse.
  unfoldable pub parse : ℕ → ℕ → is.State → State → Call State
  parse fuel scan_fuel src s =
      if not is.can_peek
      then return_error fatal input_source_cant_peek s
      else start_session s >=> parse_messages fuel scan_fuel src
