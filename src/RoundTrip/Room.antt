-- ===== src/RoundTrip/Room.antt =====
-- EncodePlan::execute succeeds where there is room for the record.
use Prim.Native.Nat.{min}
use libfc.Prelude.{
  ℕ, ◌+◌, ◌-◌, ◌%◌, ◌^◌, ◌≡◌, ◌≤◌, ◌<◌, refl, sym, arith, List, [], ◌∷◌, ◌++◌, length,
  length-append, length-take, length-drop, length-replicate, length-reverse, take, drop, replicate,
  reverse, ok, ltb, lt→ltb, ◌==◌, if◌then◌else◌,
}
use libfc.Octets.{Memory, Cell, native, octets, update}
use libfc.Encode.Plan
use libfc.Encode.Plan.{
  encode_none, encode_boolean, encode_fixlen, encode_fixlen_endianness, encode_fixlen_octets,
  encode_varlen, encode_double_as_float_endianness, encode_double_as_float,
}
use libfc.Encode.Execute
use libfc.Encode.Execute.{encode, room, load, load_octets, encode_truth, varlen_prefix}
use libfc.Decode.Execute.{execute}
use libfc.Decode.Plan.{
  Machine, Decision, DecisionType, transfer_fixlen, transfer_boolean, transfer_fixlen_endianness,
  transfer_fixlen_octets, transfer_varlen,
}
use libfc.RoundTrip.Field.{Pair, IsPlaced, received}
use libfc.RoundTrip.Record.{AllPaired, deliver, execute_round_trip}

-- The octets that a value takes on the wire.
abbrev pub wire_size : Plan.DecisionType → Plan.Decision → Cell → ℕ
wire_size encode_boolean e c = 1
wire_size encode_varlen e (octets a) = a.length + (if ltb a.length 255 then 1 else 3)
wire_size encode_varlen e (native v) = 0
wire_size _ e c = e.encoded_length

abbrev pub record_size : List Plan.Decision → Memory → ℕ
record_size [] m = 0
record_size (e ∷ es) m = wire_size e.type e (m e.address) + record_size es m

module _ (f : List ℕ → List ℕ) (limit : ℕ) where
  abbrev Written : Plan.DecisionType → Plan.Decision → Cell → Memory → List ℕ → Type 0
  Written et e cs m out =
      (out' : List ℕ) × (encode f limit et e m out ≡ ok out')
      × (length out' ≡ length out + wire_size et e cs)

  encode-Written :
      (et : Plan.DecisionType) (dt : DecisionType) (e : Plan.Decision) (d : Decision) (cs ct : Cell)
      (m : Memory) (out : List ℕ)
      → Pair et dt e d
      → IsPlaced et e cs ct
      → m e.address ≡ cs
      → length out + wire_size et e cs ≤ limit
      → Written et e cs m out
  unfolding encode room load load_octets encode_truth varlen_prefix
  encode-Written encode_boolean transfer_boolean e d (native []) (native old) m out p placed es
        fits =
      absurd (omega (arith, placed.0))
  encode-Written encode_boolean transfer_boolean e d (native (b ∷ v)) (native old) m out p placed es
        fits =
      let w : List ℕ = (if b == 0 then 2 else 1) ∷ [] in
      (out ++ w, ground (arith, es), omega (arith, length-append out w))
  encode-Written encode_fixlen transfer_fixlen e d (native v) (native old) m out p placed es fits =
      let w = take e.encoded_length (drop (e.unencoded_length - e.encoded_length) v) in
      let long = length-drop (e.unencoded_length - e.encoded_length) v in
      let size =
        length-take e.encoded_length (drop (e.unencoded_length - e.encoded_length) v)
          (omega (arith, long)) in
      (out ++ w, ground (arith, es), omega (arith, size, length-append out w))
  encode-Written encode_fixlen_endianness transfer_fixlen_endianness e d (native v) (native old) m
        out p placed es fits =
      let w = take e.encoded_length v in
      let size = length-take e.encoded_length v (omega arith) in
      (
        out ++ reverse w,
        ground (arith, es),
        omega (arith, size, length-reverse w, length-append out (reverse w)),
      )
  encode-Written encode_fixlen_octets transfer_fixlen_octets e d (octets a) (octets old) m out p
        placed es fits =
      let n = min a.length e.encoded_length in
      let w = take n a.buf ++ replicate (e.encoded_length - n) 0 in
      let size = length-take n a.buf (omega arith) in
      (
        out ++ w,
        ground (arith, es),
        omega (
          arith,
          size,
          length-append (take n a.buf) (replicate (e.encoded_length - n) 0),
          length-replicate {A = ℕ} (e.encoded_length - n) 0,
          length-append out w,
        ),
      )
  encode-Written encode_varlen transfer_varlen e d (octets a) (octets old) m out p placed es fits =
      let w = varlen_prefix a.length ++ take a.length a.buf in
      (
        out ++ w,
        ground (arith, es),
        ground (
          arith,
          length-take a.length a.buf,
          length-append (varlen_prefix a.length) (take a.length a.buf),
          length-append out w,
        ),
      )
  encode-Written _ _ e d _ _ m out p placed es fits = ground (arith)

  run-record_size :
      (es : List Plan.Decision) (ds : List Decision) (m m2 : Memory) (out : List ℕ)
      → AllPaired es ds m m2
      → length out + record_size es m ≤ limit
      → (out' : List ℕ) × (Execute.run f limit es m out ≡ ok out')
        × (length out' ≡ length out + record_size es m)
  unfolding Execute.run
  run-record_size [] ds m m2 out v fits = (out, refl, omega arith)
  run-record_size (e ∷ es) [] m m2 out v fits = absurd v
  run-record_size (e ∷ es) (d ∷ ds) m m2 out (pair, wide, placed, more) fits =
      let (mid, h, size) =
        encode-Written e.type d.type e d (m e.address) (m2 d.p) m out pair placed refl
          (omega (arith, fits)) in
      let (out', h', size') =
        run-record_size es ds m (update m2 d.p (received e.type e (m e.address) (m2 d.p))) mid more
          (omega (arith, fits, size)) in
      (out', ground (arith, h, h'), omega (arith, size, size'))

  -- A record whose decisions have partners, and for which there is room in a buffer of fewer than
  -- 65536 octets, is written: no assertion fails, and as many octets are counted and appended as the
  -- values take on the wire.
  pub execute-record_size :
      (es : List Plan.Decision) (ds : List Decision) (m m2 : Memory) (out : List ℕ)
      → limit < 2 ^ 16
      → length out < limit
      → AllPaired es ds m m2
      → length out + record_size es m ≤ limit
      → (out' : List ℕ) × (Execute.execute f limit es m out ≡ ok (record_size es m, out'))
        × (length out' ≡ length out + record_size es m)
  unfolding Execute.execute
  execute-record_size es ds m m2 out small start v fits =
      let (out', h, size) = run-record_size es ds m m2 out v fits in
      let count : (length out' - length out) % 2 ^ 16 ≡ record_size es m = omega (arith, size) in
      (out', ground (arith, h, count, lt→ltb (length out) limit start), size)

-- A record whose decisions to encode have partners to decode, and for which there is room in a buffer of
-- fewer than 65536 octets, makes the round trip: EncodePlan::execute appends as many octets as the
-- values take on the wire, and counts them; DecodePlan::execute, at these octets and whatever
-- follows them, consumes just these, and each value arrives at its place as `received` describes it.
pub record_round_trip :
    (c : Machine) (f : List ℕ → List ℕ) (limit : ℕ) (es : List Plan.Decision) (ds : List Decision)
    (m m2 : Memory) (out : List ℕ)
    → limit < 2 ^ 16
    → length out < limit
    → AllPaired es ds m m2
    → length out + record_size es m ≤ limit
    → (w : List ℕ) × (Execute.execute f limit es m out ≡ ok (record_size es m, out ++ w))
      × (length w ≡ record_size es m)
      × ((rest : List ℕ) → execute c ds (w ++ rest) m2 ≡ ok (record_size es m, deliver es ds m m2))
record_round_trip c f limit es ds m m2 out small start v fits =
    let (out', h, size) = execute-record_size f limit es ds m m2 out small start v fits in
    let (w, eq, count, back) =
      execute_round_trip c f limit small es ds m m2 out out' (record_size es m) v h in
    (w, ground (arith, h, eq), sym count, back)
