-- ===== src/RoundTrip/Agree.antt =====
-- Which types the constructors of EncodePlan and DecodePlan treat alike.
use libfc.Prelude.{ℕ, ◌≡◌, ◌≢◌, ◌⊎◌, refl, arith, ok}
use libfc.Info.Types.{IeType, octet_array, float64, ipv6_address}
use libfc.Encode.Plan
use libfc.Encode.Plan.{
  encode_none, encode_boolean, encode_fixlen, encode_fixlen_endianness, encode_fixlen_octets,
  encode_varlen, encode_double_as_float_endianness, encode_double_as_float, encode_decision,
  reduced, exact, encode_fixlen_maybe_endianness, encode_double_maybe_endianness,
}
use libfc.Decode.Plan.{
  Machine, Decision, transfer_decision, other_decision, native_decision, address_decision,
  octets_decision, float64_decision, wide_time_decision, transfer_fixlen_maybe_endianness,
  transfer_float_into_double_maybe_endianness,
}
use libfc.RoundTrip.Field.{Pair}

-- The decisions that the two constructors take for an element of the same type and the same length on
-- the wire, on the same machine, are partners, at the addresses given: but for IPv6 addresses and for
-- a `float64` that is not sent in its eight octets.
pub decisions_agree :
    (c : Machine) (type : IeType) (a p size : ℕ) (e : Plan.Decision) (d : Decision)
    → type ≢ ipv6_address
    → (type ≢ float64) ⊎ (size ≡ 8)
    → encode_decision c.little_endian type a size ≡ ok e
    → transfer_decision c type p size ≡ ok d
    → Pair e.type d.type e d × (e.address ≡ a) × (d.p ≡ p)
unfolding encode_decision Plan.other_decision reduced exact encode_fixlen_maybe_endianness
    encode_double_maybe_endianness Plan.octets_decision Plan.float64_decision transfer_decision
    other_decision native_decision address_decision octets_decision float64_decision
    wide_time_decision transfer_fixlen_maybe_endianness transfer_float_into_double_maybe_endianness
decisions_agree c octet_array a p size e d n6 n64 he hd = (ground arith, ground arith, ground arith)
decisions_agree c ipv6_address a p size e d n6 n64 he hd = absurd (n6 refl)
decisions_agree c _ a p size e d n6 n64 he hd = (ground arith, ground arith, ground arith)
