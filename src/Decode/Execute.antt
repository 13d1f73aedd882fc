-- ===== src/Decode/Execute.antt =====
-- lib/DecodePlan.cpp: decode_varlen_length and DecodePlan::execute. The list is what stands from
-- `cur` to `buf_end`.
use libfc.Prelude.{
  ℕ, ◌+◌, ◌-◌, ◌*◌, ◌^◌, List, [], ◌∷◌, ◌++◌, reverse, ltb, leb, ◌==◌, if◌then◌else◌, length, take,
  drop, replicate, Outcome, ok, thrown, aborted, assert, throw_if, ◌>>=◌, ◌>>◌,
}
use libfc.Octets.{Memory, store, store_octets}
use libfc.Decode.Plan.{
  Machine, Decision, DecisionType, skip_fixlen, skip_varlen, transfer_fixlen, transfer_boolean,
  transfer_fixlen_endianness, transfer_fixlen_octets, transfer_float_into_double,
  transfer_float_into_double_endianness, transfer_varlen,
}

-- The last check of decode_varlen_length.
unfoldable pub checked_length : ℕ → List ℕ → Outcome (ℕ × List ℕ)
checked_length ret rest = do throw_if (ltb (length rest) ret); ok (ret, rest)

-- The length and what follows it.
unfoldable pub decode_varlen_length : List ℕ → Outcome (ℕ × List ℕ)
decode_varlen_length [] = thrown
decode_varlen_length (b ∷ []) = if ltb b 255 then checked_length b [] else thrown
decode_varlen_length (b ∷ hi ∷ []) = if ltb b 255 then checked_length b (hi ∷ []) else thrown
decode_varlen_length (b ∷ hi ∷ lo ∷ rest) =
    if ltb b 255 then checked_length b (hi ∷ lo ∷ rest) else checked_length (hi * 2 ^ 8 + lo) rest

-- The value that a boolean octet stands for, with 1 for true and 2 for false.
unfoldable pub decode_boolean : ℕ → Outcome ℕ
decode_boolean b = if b == 1 then ok 1 else if b == 2 then ok 0 else thrown

unfoldable pub transfer_boolean_step : ℕ → List ℕ → Memory → Outcome (List ℕ × Memory)
transfer_boolean_step p [] m = aborted
transfer_boolean_step p (b ∷ rest) m = do
  v ← decode_boolean b
  m' ← store m p (v ∷ [])
  ok (rest, m')

module _ (c : Machine) where
  -- The cases of the switch.
  unfoldable pub transfer : DecisionType → Decision → List ℕ → Memory → Outcome (List ℕ × Memory)
  transfer skip_fixlen d cur m = do assert (leb d.length (length cur)); ok (drop d.length cur, m)
  transfer skip_varlen d cur m = do
    (n, rest) ← decode_varlen_length cur
    assert (leb n (length rest))
    ok (drop n rest, m)
  transfer transfer_boolean d cur m = transfer_boolean_step d.p cur m
  transfer transfer_fixlen d cur m = do
    throw_if (ltb (length cur) d.length)
    assert (leb d.length d.destination_size)
    m' ← store m d.p (replicate (d.destination_size - d.length) 0 ++ take d.length cur)
    ok (drop d.length cur, m')
  transfer transfer_fixlen_endianness d cur m = do
    throw_if (ltb (length cur) d.length)
    assert (leb d.length d.destination_size)
    m' ← store m d.p (reverse (take d.length cur) ++ replicate (d.destination_size - d.length) 0)
    ok (drop d.length cur, m')
  transfer transfer_fixlen_octets d cur m = do
    assert (leb d.length (length cur))
    m' ← store_octets m d.p (take d.length cur)
    ok (drop d.length cur, m')
  transfer transfer_float_into_double d cur m = do
    assert (leb 4 (length cur))
    m' ← store m d.p (c.float_to_double (take 4 cur))
    ok (drop 4 cur, m')
  transfer transfer_float_into_double_endianness d cur m = do
    assert (leb 4 (length cur))
    m' ← store m d.p (c.float_to_double (reverse (take 4 cur)))
    ok (drop 4 cur, m')
  transfer transfer_varlen d cur m = do
    (n, rest) ← decode_varlen_length cur
    assert (leb n (length rest))
    m' ← store_octets m d.p (take n rest)
    ok (drop n rest, m')

  -- One round of the loop.
  unfoldable pub step : Decision → List ℕ → Memory → Outcome (List ℕ × Memory)
  step d cur m = do assert (ltb 0 (length cur)); transfer d.type d cur m

  unfoldable pub run : List Decision → List ℕ → Memory → Outcome (List ℕ × Memory)
  run [] cur m = ok (cur, m)
  run (d ∷ ds) cur m = do (rest, m') ← step d cur m; run ds rest m'

  -- DecodePlan::execute: the number of octets that were consumed, and the memory.
  unfoldable pub execute : List Decision → List ℕ → Memory → Outcome (ℕ × Memory)
  execute plan buf m = do
    (rest, m') ← run plan buf m
    assert (leb (length buf - length rest) 65535)
    ok (length buf - length rest, m')
