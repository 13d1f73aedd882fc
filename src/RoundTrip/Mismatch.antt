-- ===== src/RoundTrip/Mismatch.antt =====
-- Where the exporter and the collector do not agree.
use libfc.Prelude.{
  ℕ, ◌≡◌, ◌≢◌, arith, Bool, true, List, ◌++◌, reverse, length, ok, length-reverse, length-append,
  take-append, drop-append,
}
use libfc.Info.Types.{IeType, octet_array, ipv6_address}
use libfc.Octets.{Memory, native, update}
use libfc.Encode.Plan
use libfc.Encode.Plan.{
  encode_none, encode_boolean, encode_fixlen, encode_fixlen_endianness, encode_fixlen_octets,
  encode_varlen, encode_double_as_float_endianness, encode_double_as_float, encode_decision,
  reduced, exact, encode_fixlen_maybe_endianness, encode_double_maybe_endianness,
}
use libfc.Encode.Execute.{load, room, encode}
use libfc.Decode.Plan.{Machine, Decision, transfer_decision, other_decision, address_decision}
use libfc.Decode.Execute.{transfer}
use libfc.RoundTrip.Field.{take_all, store_whole}

-- No element of any type and size is ever encoded as a `double` cut to a `float`.
pub double_as_float_unreachable :
    (little_endian : Bool) (type : IeType) (a size : ℕ) (e : Plan.Decision)
    → encode_decision little_endian type a size ≡ ok e
    → (e.type ≢ encode_double_as_float) × (e.type ≢ encode_double_as_float_endianness)
unfolding encode_decision Plan.other_decision reduced exact encode_fixlen_maybe_endianness
    encode_double_maybe_endianness Plan.octets_decision Plan.float64_decision
double_as_float_unreachable l octet_array a size e h = (ground arith, ground arith)
double_as_float_unreachable l _ a size e h = (ground arith, ground arith)

-- On a little-endian machine the sixteen octets of an IPv6 address arrive in reverse order: they are
-- reversed on the way out and not on the way in.
pub ipv6_arrives_reversed :
    (c : Machine) (f : List ℕ → List ℕ) (limit a p : ℕ) (v old : List ℕ) (m m2 : Memory)
    (out out' : List ℕ) (e : Plan.Decision) (d : Decision)
    → c.little_endian ≡ true
    → encode_decision c.little_endian ipv6_address a 16 ≡ ok e
    → transfer_decision c ipv6_address p 16 ≡ ok d
    → m a ≡ native v
    → m2 p ≡ native old
    → length v ≡ 16
    → length old ≡ 16
    → encode f limit e.type e m out ≡ ok out'
    → (out' ≡ out ++ reverse v)
      × ((rest : List ℕ)
          → transfer c d.type d (reverse v ++ rest) m2
            ≡ ok (rest, update m2 p (native (reverse v))))
unfolding encode_decision Plan.other_decision exact encode_fixlen_maybe_endianness transfer_decision
    other_decision address_decision encode load room transfer
ipv6_arrives_reversed c f limit a p v old m m2 out out' e d le he hd ev eo lv lo h = (
  ground (arith, take_all 16 v),
  λ rest. ground (
    arith,
    length-reverse v,
    length-append (reverse v) rest,
    take-append 16 (reverse v) rest,
    drop-append 16 (reverse v) rest,
    store_whole m2 p old (reverse v),
  ),
)
