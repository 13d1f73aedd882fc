-- ===== src/Decode/Plan.antt =====
-- lib/DecodePlan.h and lib/DecodePlan.cpp: the decisions of a plan and the constructor.
use libfc.Prelude.{
  undefined, ℕ, ◌+◌, ◌%◌, ◌^◌, Bool, List, [], ◌∷◌, none, some, ltb, ◌==◌, ◌||◌, not, if◌then◌else◌,
  Outcome, ok, assert, throw_if, ◌>>=◌, ◌>>◌, true, Option, false,
}
use libfc.Info.Types.{
  IeType, octet_array, unsigned8, unsigned16, unsigned32, unsigned64, signed8, signed16, signed32,
  signed64, float32, float64, mac_address, string, date_time_seconds, date_time_milliseconds,
  date_time_microseconds, date_time_nanoseconds, ipv4_address, ipv6_address, unknown, InfoElement,
  ipfix_varlen,
}
use libfc.Placement.Template.{PlacementTemplate, lookup_placement}

pub data DecisionType : Type 0 where
  skip_fixlen skip_varlen transfer_fixlen transfer_boolean : DecisionType
  transfer_fixlen_endianness transfer_fixlen_octets : DecisionType
  transfer_float_into_double transfer_float_into_double_endianness : DecisionType
  transfer_varlen : DecisionType

-- `wire_ie` of the source only serves messages.
pub record Decision : Type 0 where
  pub type : DecisionType
  pub length : ℕ
  pub destination_size : ℕ
  pub p : ℕ

-- What the build and the machine fix: IPFIX_LITTLE_ENDIAN, the conversions between the octets of a
-- `float` and those of a `double`, and the indeterminate value of a member that no
-- constructor has set.
pub record Machine : Type 0 where
  pub little_endian : Bool
  pub float_to_double : List ℕ → List ℕ
  pub indeterminate : ℕ

module _ (c : Machine) where
  unfoldable pub transfer_fixlen_maybe_endianness : DecisionType
  transfer_fixlen_maybe_endianness =
      if c.little_endian then transfer_fixlen_endianness else transfer_fixlen

  unfoldable pub transfer_float_into_double_maybe_endianness : DecisionType
  transfer_float_into_double_maybe_endianness =
      if c.little_endian then transfer_float_into_double_endianness else transfer_float_into_double

  -- A member that is not set keeps its indeterminate value.
  abbrev pub raw : DecisionType → ℕ → Decision
  raw type p = record {
    type = type;
    length = c.indeterminate;
    destination_size = c.indeterminate;
    p = p;
  }

  -- A fixed-length element of a type whose native size is `size`.
  unfoldable pub native_decision : DecisionType → ℕ → ℕ → ℕ → Outcome Decision
  native_decision type size p len = do
    throw_if (ltb size len)
    ok (record { type = type; length = len; destination_size = size; p = p })

  -- An address, whose length must be the native size.
  unfoldable pub address_decision : DecisionType → ℕ → ℕ → ℕ → Outcome Decision
  address_decision type size p len = do
    throw_if (not (len == size))
    ok (record { type = type; length = len; destination_size = size; p = p })

  -- An element that is placed in an octet array.
  unfoldable pub octets_decision : ℕ → ℕ → Decision
  octets_decision p len =
      if len == ipfix_varlen
      then raw transfer_varlen p
      else record (raw transfer_fixlen_octets p) { length = len }

  -- kFloat64. The assertion reads `d.length` before it is set.
  unfoldable pub float64_decision : ℕ → ℕ → Outcome Decision
  float64_decision p len = do
    assert ((len == 4) || (c.indeterminate == 8))
    native_decision
        (if len == 4
          then transfer_float_into_double_maybe_endianness
          else transfer_fixlen_maybe_endianness)
        8 p len

  -- kDateTimeMicroseconds and kDateTimeNanoseconds.
  unfoldable pub wide_time_decision : ℕ → ℕ → Outcome Decision
  wide_time_decision p len = do
    assert (len == 8)
    native_decision transfer_fixlen_maybe_endianness 8 p len

  -- The second half of the switch, from kBoolean on.
  unfoldable pub other_decision : IeType → ℕ → ℕ → Outcome Decision
  other_decision mac_address p len = address_decision transfer_fixlen 6 p len
  other_decision string p len = ok (octets_decision p len)
  other_decision date_time_seconds p len = native_decision transfer_fixlen_maybe_endianness 4 p len
  other_decision date_time_milliseconds p len =
      native_decision transfer_fixlen_maybe_endianness 8 p len
  other_decision date_time_microseconds p len = wide_time_decision p len
  other_decision date_time_nanoseconds p len = wide_time_decision p len
  other_decision ipv4_address p len = address_decision transfer_fixlen_maybe_endianness 4 p len
  other_decision ipv6_address p len = address_decision transfer_fixlen 16 p len
  other_decision _ p len = native_decision transfer_boolean 1 p len

  -- The first half, up to kFloat64; the type `unknown` has the number of kOctetArray.
  unfoldable pub transfer_decision : IeType → ℕ → ℕ → Outcome Decision
  transfer_decision octet_array p len = ok (octets_decision p len)
  transfer_decision unknown p len = ok (octets_decision p len)
  transfer_decision unsigned8 p len = native_decision transfer_fixlen 1 p len
  transfer_decision unsigned16 p len = native_decision transfer_fixlen_maybe_endianness 2 p len
  transfer_decision unsigned32 p len = native_decision transfer_fixlen_maybe_endianness 4 p len
  transfer_decision unsigned64 p len = native_decision transfer_fixlen_maybe_endianness 8 p len
  transfer_decision signed8 p len = native_decision transfer_fixlen_maybe_endianness 1 p len
  transfer_decision signed16 p len = native_decision transfer_fixlen_maybe_endianness 2 p len
  transfer_decision signed32 p len = native_decision transfer_fixlen_maybe_endianness 4 p len
  transfer_decision signed64 p len = native_decision transfer_fixlen_maybe_endianness 8 p len
  transfer_decision float32 p len = native_decision transfer_fixlen_maybe_endianness 4 p len
  transfer_decision float64 p len = float64_decision p len
  transfer_decision t p len = other_decision t p len

  -- An element that is not placed.
  unfoldable pub skip_decision : ℕ → Decision
  skip_decision len =
      if len == ipfix_varlen
      then raw skip_varlen c.indeterminate
      else record (raw skip_fixlen c.indeterminate) { length = len }

  -- One round of the first loop of the constructor, by what lookup_placement finds. For an element without a
  -- type, the constructor calls toIESpec, which uses the type, before it tests it.
  unfoldable pub decide_at : Option (ℕ × ℕ) → Option IeType → ℕ → Outcome Decision
  decide_at none type len = ok (skip_decision len)
  decide_at (some (p, size)) none len = undefined
  decide_at (some (p, size)) (some type) len = transfer_decision type p len

  unfoldable pub decide : PlacementTemplate → InfoElement → Outcome Decision
  unfolding decide_at
  decide t ie = decide_at (lookup_placement t.placements ie) ie.ietype ie.len

  unfoldable pub decide_all : PlacementTemplate → List InfoElement → Outcome (List Decision)
  decide_all t [] = ok []
  decide_all t (ie ∷ ies) = do d ← decide t ie; ds ← decide_all t ies; ok (d ∷ ds)

unfoldable pub is_skip : DecisionType → Bool
is_skip skip_fixlen = true
is_skip _ = false

-- The second loop: a run of fixed skips becomes one, whose length is a `uint16_t`. `some s` is the
-- skip that is being extended.
unfoldable pub coalesce_from : Option Decision → List Decision → List Decision
coalesce_from none [] = []
coalesce_from (some s) [] = s ∷ []
coalesce_from none (d ∷ ds) = elim (is_skip d.type) [
  | true ↦ coalesce_from (some d) ds
  | false ↦ d ∷ coalesce_from none ds
]
coalesce_from (some s) (d ∷ ds) = elim (is_skip d.type) [
  | true ↦ coalesce_from (some (record s { length = (s.length + d.length) % 2 ^ 16 })) ds
  | false ↦ s ∷ d ∷ coalesce_from none ds
]

unfoldable pub coalesce : List Decision → List Decision
coalesce ds = coalesce_from none ds

-- DecodePlan::DecodePlan.
unfoldable pub decode_plan :
    Machine → PlacementTemplate → List InfoElement → Outcome (List Decision)
decode_plan c t wire = do ds ← decide_all c t wire; ok (coalesce ds)
