-- ===== src/Encode/Plan.antt =====
-- lib/PlacementExporter.cpp: the decisions of an EncodePlan and its constructor.
use libfc.Prelude.{
  ℕ, Bool, true, false, List, [], ◌∷◌, none, some, ltb, leb, ◌==◌, ◌&&◌, ◌||◌, if◌then◌else◌,
  Outcome, ok, aborted, assert, throw_if, ◌>>=◌, ◌>>◌, Option,
}
use libfc.Info.Types.{
  IeType, octet_array, unsigned8, unsigned16, unsigned32, unsigned64, signed8, signed16, signed32,
  signed64, float32, float64, mac_address, string, date_time_seconds, date_time_milliseconds,
  date_time_microseconds, date_time_nanoseconds, ipv4_address, ipv6_address, unknown, InfoElement,
  ipfix_varlen,
}
use libfc.Placement.Template.{PlacementTemplate, lookup_placement}

pub data DecisionType : Type 0 where
  encode_none encode_boolean encode_fixlen encode_fixlen_endianness : DecisionType
  encode_fixlen_octets encode_varlen : DecisionType
  encode_double_as_float_endianness encode_double_as_float : DecisionType

pub record Decision : Type 0 where
  pub type : DecisionType
  pub address : ℕ
  pub unencoded_length : ℕ
  pub encoded_length : ℕ

-- The parameter says whether IPFIX_LITTLE_ENDIAN is defined.
module _ (little_endian : Bool) where
  unfoldable pub encode_fixlen_maybe_endianness : DecisionType
  encode_fixlen_maybe_endianness = if little_endian then encode_fixlen_endianness else encode_fixlen

  unfoldable pub encode_double_maybe_endianness : DecisionType
  encode_double_maybe_endianness =
      if little_endian then encode_double_as_float_endianness else encode_double_as_float

  -- A type of `native` octets that may be sent in fewer.
  unfoldable pub reduced : DecisionType → ℕ → ℕ → ℕ → Outcome Decision
  reduced type native address size = do
    assert (leb size native)
    ok (record { type = type; address = address; unencoded_length = native; encoded_length = size })

  -- A type that is always sent in `native` octets.
  unfoldable pub exact : DecisionType → ℕ → ℕ → ℕ → Outcome Decision
  exact type native address size = do
    assert (size == native)
    ok (record { type = type; address = address; unencoded_length = size; encoded_length = size })

  unfoldable pub octets_decision : ℕ → ℕ → Decision
  octets_decision address size =
      if size == ipfix_varlen
      then record {
        type = encode_varlen;
        address = address;
        unencoded_length = 0;
        encoded_length = 0;
      }
      else record {
        type = encode_fixlen_octets;
        address = address;
        unencoded_length = 0;
        encoded_length = size;
      }

  -- kFloat64. The test is on the length of the unencoded value, which was just set to 8.
  unfoldable pub float64_decision : ℕ → ℕ → Outcome Decision
  float64_decision address size = do
    assert ((size == 4) || (size == 8))
    let unencoded_length : ℕ = 8
    ok (record {
      type =
          if unencoded_length == 4
          then encode_double_maybe_endianness
          else encode_fixlen_maybe_endianness;
      address = address;
      unencoded_length = unencoded_length;
      encoded_length = size;
    })

  -- The second half of the switch, from kBoolean on.
  unfoldable pub other_decision : IeType → ℕ → ℕ → Outcome Decision
  other_decision mac_address a size = exact encode_fixlen 6 a size
  other_decision string a size = ok (octets_decision a size)
  other_decision date_time_seconds a size = exact encode_fixlen_maybe_endianness 4 a size
  other_decision date_time_milliseconds a size = exact encode_fixlen_maybe_endianness 8 a size
  other_decision date_time_microseconds a size = exact encode_fixlen_maybe_endianness 8 a size
  other_decision date_time_nanoseconds a size = exact encode_fixlen_maybe_endianness 8 a size
  other_decision ipv4_address a size = exact encode_fixlen_maybe_endianness 4 a size
  other_decision ipv6_address a size = exact encode_fixlen_maybe_endianness 16 a size
  other_decision _ a size = exact encode_boolean 1 a size

  -- The first half, up to kFloat64; the type `unknown` has the number of kOctetArray.
  unfoldable pub encode_decision : IeType → ℕ → ℕ → Outcome Decision
  encode_decision octet_array a size = ok (octets_decision a size)
  encode_decision unknown a size = ok (octets_decision a size)
  encode_decision unsigned8 a size = reduced encode_fixlen 1 a size
  encode_decision unsigned16 a size = reduced encode_fixlen_maybe_endianness 2 a size
  encode_decision unsigned32 a size = reduced encode_fixlen_maybe_endianness 4 a size
  encode_decision unsigned64 a size = reduced encode_fixlen_maybe_endianness 8 a size
  encode_decision signed8 a size = reduced encode_fixlen_maybe_endianness 1 a size
  encode_decision signed16 a size = reduced encode_fixlen_maybe_endianness 2 a size
  encode_decision signed32 a size = reduced encode_fixlen_maybe_endianness 4 a size
  encode_decision signed64 a size = reduced encode_fixlen_maybe_endianness 8 a size
  encode_decision float32 a size = exact encode_fixlen_maybe_endianness 4 a size
  encode_decision float64 a size = float64_decision a size
  encode_decision t a size = other_decision t a size

  abbrev pub is_fixlen : DecisionType → Bool
  is_fixlen encode_fixlen = true
  is_fixlen encode_fixlen_endianness = true
  is_fixlen _ = false

  -- One round of the constructor's loop, by what lookup_placement finds. The assertions are that
  -- the element has a type and is placed.
  unfoldable pub decide_at : Option (ℕ × ℕ) → Option IeType → Outcome Decision
  decide_at place none = aborted
  decide_at none (some type) = aborted
  decide_at (some (location, size)) (some type) = do
    d ← encode_decision type location size
    throw_if (is_fixlen d.type && ltb d.unencoded_length d.encoded_length)
    ok d

  unfoldable pub decide : PlacementTemplate → InfoElement → Outcome Decision
  unfolding decide_at
  decide t ie = decide_at (lookup_placement t.placements ie) ie.ietype

  unfoldable pub decide_all : PlacementTemplate → List InfoElement → Outcome (List Decision)
  decide_all t [] = ok []
  decide_all t (ie ∷ ies) = do d ← decide t ie; ds ← decide_all t ies; ok (d ∷ ds)

  -- EncodePlan::EncodePlan.
  unfoldable pub encode_plan : PlacementTemplate → Outcome (List Decision)
  encode_plan t = decide_all t t.ies
