-- ===== src/Ipfix/Parser.antt =====
-- lib/IPFIXMessageStreamParser.cpp: IPFIXMessageStreamParser::parse, over any source and any handler.
use libfc.Prelude.{
  ℕ, zero, suc, ◌+◌, ◌-◌, List, [], ◌∷◌, Option, none, some, ltb, leb, ◌==◌, not, if◌then◌else◌,
  length, take, drop, Outcome, ok, undefined, exhausted, assert, ◌>>=◌, ◌>>◌,
}
use libfc.Constants.{
  ipfix_version, ipfix_message_header_len, ipfix_set_header_len, ipfix_template_set_id,
  ipfix_option_template_set_id, min_data_set_id,
}
use libfc.Wire.{decode_uint16, decode_uint32}
use libfc.Errors.{
  Call, return_ok, return_error, recoverable, fatal, short_header, message_version_number,
  short_body, system_error, long_set, format_error, ◌>=>◌,
}
use libfc.Handler.State.{MessageHeader}
use libfc.Ipfix.Source.{InputSource}
use libfc.Ipfix.Content.{ContentHandler}

-- The octets from `cur` that a set of a length is said to hold. For a set length below 4 the handler
-- is told a length that wraps around as a `uint16_t`, and so goes beyond the array `message`. What a
-- handler makes of that is not modelled: the model gives up here, with the outcome of a handler that
-- reads what it is told.
unfoldable pub view : ℕ → List ℕ → Outcome (List ℕ)
view set_length cur =
    if leb ipfix_set_header_len set_length
    then ok (take (set_length - ipfix_set_header_len) cur)
    else undefined

-- The header of a set, if there is one before `message_end`, and what follows it.
unfoldable pub decode_set_header : List ℕ → Option (ℕ × ℕ × List ℕ)
decode_set_header (i0 ∷ i1 ∷ l0 ∷ l1 ∷ rest) = some (decode_uint16 i0 i1, decode_uint16 l0 l1, rest)
decode_set_header cur = none

-- The IDs of template sets and of options template sets, and the least of data sets.
pub record SetIds : Type 0 where
  pub template_set : ℕ
  pub options_template_set : ℕ
  pub min_data_set : ℕ

abbrev pub ipfix_set_ids : SetIds
ipfix_set_ids = record {
  template_set = ipfix_template_set_id;
  options_template_set = ipfix_option_template_set_id;
  min_data_set = min_data_set_id;
}

module _ (ids : SetIds) (ch : ContentHandler) where
  open ch use {
    State, start_template_set, end_template_set, start_options_template_set,
    end_options_template_set, start_data_set, end_data_set,
  }

  -- The dispatch on the ID of a set.
  unfoldable pub handle_set : ℕ → ℕ → List ℕ → State → Call State
  handle_set set_id set_length cur s =
      if set_id == ids.template_set
      then (view set_length cur >>= λ buf. start_template_set set_id buf s >=> end_template_set)
      else if set_id == ids.options_template_set
      then (view set_length cur >>= λ buf.
          start_options_template_set set_id buf s >=> end_options_template_set)
      else if leb ids.min_data_set set_id
      then (view set_length cur >>= λ buf. start_data_set set_id buf s >=> end_data_set)
      else return_error recoverable format_error s

  -- The loop over the sets of a message, from `cur` to `message_end`, on fuel. A round moves `cur`
  -- by the length of the set.
  unfoldable pub parse_sets : ℕ → List ℕ → State → Call State
  parse_sets zero cur s = elim (decode_set_header cur) [
    | none ↦ return_ok s
    | some (set_id, set_length, rest) ↦ exhausted
  ]
  parse_sets (suc fuel) cur s = elim (decode_set_header cur) [
    | none ↦ return_ok s
    | some (set_id, set_length, rest) ↦
        if ltb (length cur) set_length
        then return_error recoverable long_set s
        else handle_set set_id set_length rest s >=> λ s'. parse_sets fuel (drop set_length cur) s'
  ]

-- A byte of the array `message`, which is cleared before a header is read.
abbrev pub byte_at : List ℕ → ℕ → ℕ
byte_at [] i = 0
byte_at (b ∷ bs) zero = b
byte_at (b ∷ bs) (suc i) = byte_at bs i

unfoldable pub uint16_at : List ℕ → ℕ → ℕ
uint16_at m i = decode_uint16 (byte_at m i) (byte_at m (i + 1))

unfoldable pub uint32_at : List ℕ → ℕ → ℕ
uint32_at m i =
    decode_uint32 (byte_at m i) (byte_at m (i + 1)) (byte_at m (i + 2)) (byte_at m (i + 3))

-- What start_message is told, from the octets of a message header.
unfoldable pub message_header : List ℕ → MessageHeader
message_header m = record {
  version = uint16_at m 0;
  length = uint16_at m 2;
  export_time = uint32_at m 4;
  sequence_number = uint32_at m 8;
  observation_domain = uint32_at m 12;
  base_time = 0;
}

module _ (is : InputSource) (ch : ContentHandler) where
  open ch use {State, start_session, end_session, start_message, end_message}

  -- The part of a round behind the header: the body, its sets and the end of the message.
  unfoldable pub parse_body : Option (List ℕ) → ℕ → State → Call State
  parse_body none wanted s = return_error fatal system_error s
  parse_body (some body) wanted s =
      if length body == wanted
      then parse_sets ipfix_set_ids ch (length body) body s >=> end_message
      else return_error recoverable short_body s

  -- A round of the loop, given its header, up to the next read; `next` is the rest of the loop.
  unfoldable pub parse_message :
      List ℕ → is.State → State → (is.State → State → Call State) → Call State
  parse_message bytes src s next =
      if ltb (length bytes) ipfix_message_header_len
      then return_error recoverable short_header s
      else if not (uint16_at bytes 0 == ipfix_version)
      then return_error recoverable message_version_number s
      else start_message (message_header bytes) s >=> λ s1.
          assert (leb ipfix_message_header_len (uint16_at bytes 2))
          >> (let wanted = uint16_at bytes 2 - ipfix_message_header_len in
              let (body, src1) = is.read src wanted in
              parse_body body wanted s1 >=> λ s2. next (is.advance_message_offset src1) s2)

  -- The loop over the messages, on fuel.
  unfoldable pub parse_messages : ℕ → is.State → State → Call State
  parse_messages zero src s = exhausted
  parse_messages (suc fuel) src s =
      let (header, src1) = is.read src ipfix_message_header_len in
      elim header [
        | none ↦ return_error fatal system_error s
        | some [] ↦ end_session s
        | some (b ∷ bs) ↦ parse_message (b ∷ bs) src1 s (λ src2 s2. parse_messages fuel src2 s2)
      ]

  -- IPFIXMessageStreamParser::parse.
  unfoldable pub parse : ℕ → is.State → State → Call State
  parse fuel src s = start_session s >=> λ s1. parse_messages fuel src s1
