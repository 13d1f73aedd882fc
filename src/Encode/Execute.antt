-- ===== src/Encode/Execute.antt =====
-- lib/PlacementExporter.cpp: EncodePlan::execute.
use Prim.Native.Nat.{min}
use libfc.Prelude.{
  ℕ, ◌+◌, ◌-◌, ◌/◌, ◌%◌, ◌^◌, List, [], ◌∷◌, ◌++◌, reverse, ltb, leb, ◌==◌, if◌then◌else◌, length,
  take, drop, replicate, Outcome, ok, undefined, aborted, assert, ◌>>=◌, ◌>>◌,
}
use libfc.Octets.{Memory, BasicOctetArray, native, octets}
use libfc.Encode.Plan.{
  Decision, DecisionType, encode_none, encode_boolean, encode_fixlen, encode_fixlen_endianness,
  encode_fixlen_octets, encode_varlen, encode_double_as_float_endianness, encode_double_as_float,
}

-- `n` octets of the native value at `p`, from the octet `skip` on.
unfoldable pub load : Memory → ℕ → ℕ → ℕ → Outcome (List ℕ)
load m p skip n = elim (m p) [
  | native bytes ↦
      if leb (skip + n) (length bytes) then ok (take n (drop skip bytes)) else undefined
  | octets a ↦ undefined
]

unfoldable pub load_octets : Memory → ℕ → Outcome BasicOctetArray
load_octets m p = elim (m p) [ native bytes ↦ undefined | octets a ↦ ok a ]

-- The table `rfc2579_madness`, indexed by `*p != 0`.
unfoldable pub encode_truth : List ℕ → List ℕ
encode_truth bytes = elim bytes [ [] ↦ 2 ∷ [] | b ∷ _ ↦ (if b == 0 then 2 else 1) ∷ [] ]

-- The length prefix of a varlen value.
unfoldable pub varlen_prefix : ℕ → List ℕ
varlen_prefix n = if ltb n 255 then n % 256 ∷ [] else 255 ∷ n / 2 ^ 8 % 256 ∷ n % 256 ∷ []

-- The parameter is the conversion between the octets of a `double` and those of a `float`. `out` is
-- what stands in the buffer before `offset`, and `limit` is the buffer's length.
module _ (double_to_float : List ℕ → List ℕ) (limit : ℕ) where
  -- `assert (offset + n <= length)`.
  unfoldable pub room : List ℕ → ℕ → Outcome (Unit {0})
  room out n = assert (leb (length out + n) limit)

  -- A value that is written at the start of the buffer, while four octets at `offset` are counted;
  -- those are indeterminate, here 0.
  unfoldable pub misplaced : List ℕ → List ℕ → List ℕ
  misplaced out bytes = bytes ++ drop (length bytes) (out ++ replicate 4 0)

  -- The cases of the switch.
  unfoldable pub encode : DecisionType → Decision → Memory → List ℕ → Outcome (List ℕ)
  encode encode_none d m out = aborted
  encode encode_boolean d m out = do
    room out 1
    b ← load m d.address 0 1
    ok (out ++ encode_truth b)
  encode encode_fixlen d m out = do
    room out d.encoded_length
    v ← load m d.address (d.unencoded_length - d.encoded_length) d.encoded_length
    ok (out ++ v)
  encode encode_fixlen_endianness d m out = do
    room out d.encoded_length
    v ← load m d.address 0 d.encoded_length
    ok (out ++ reverse v)
  encode encode_fixlen_octets d m out = do
    a ← load_octets m d.address
    let n : ℕ = min a.length d.encoded_length
    room out d.encoded_length
    ok (out ++ (take n a.buf ++ replicate (d.encoded_length - n) 0))
  encode encode_varlen d m out = do
    a ← load_octets m d.address
    room out (a.length + (if ltb a.length 255 then 1 else 3))
    ok (out ++ (varlen_prefix a.length ++ take a.length a.buf))
  encode encode_double_as_float_endianness d m out = do
    v ← load m d.address 0 8
    ok (misplaced out (reverse (take 3 (double_to_float v))))
  encode encode_double_as_float d m out = do
    v ← load m d.address 0 8
    ok (misplaced out (double_to_float v))

  unfoldable pub run : List Decision → Memory → List ℕ → Outcome (List ℕ)
  run [] m out = ok out
  run (d ∷ ds) m out = encode d.type d m out >>= λ out'. run ds m out'

  -- EncodePlan::execute: the number of octets that were added, and the buffer up to its new end.
  unfoldable pub execute : List Decision → Memory → List ℕ → Outcome (ℕ × List ℕ)
  execute plan m out = do
    assert (ltb (length out) limit)
    out' ← run plan m out
    ok ((length out' - length out) % 2 ^ 16, out')
