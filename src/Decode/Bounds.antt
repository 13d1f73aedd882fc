-- ===== src/Decode/Bounds.antt =====
-- What a successful run of a plan reads.
use libfc.Prelude.{ℕ, ◌≡◌, ◌≤◌, ◌<◌, arith, List, [], ◌∷◌, length, length-drop, ok, >>=-eq-ok}
use libfc.Octets.{Memory}
use libfc.Decode.Plan.{
  Machine, Decision, DecisionType, skip_fixlen, skip_varlen, transfer_fixlen, transfer_boolean,
  transfer_fixlen_endianness, transfer_fixlen_octets, transfer_float_into_double,
  transfer_float_into_double_endianness, transfer_varlen,
}
use libfc.Decode.Execute.{
  decode_varlen_length, checked_length, transfer_boolean_step, transfer, step, run,
}

pub decode_varlen_length-lt :
    (cur : List ℕ) (n : ℕ) (rest : List ℕ)
    → decode_varlen_length cur ≡ ok (n, rest)
    → (length rest < length cur) × (n ≤ length rest)
unfolding decode_varlen_length checked_length
decode_varlen_length-lt [] n rest h = cc
decode_varlen_length-lt (b ∷ []) n rest h = ground arith
decode_varlen_length-lt (b ∷ hi ∷ []) n rest h = ground arith
decode_varlen_length-lt (b ∷ hi ∷ lo ∷ r) n rest h = ground arith

transfer_boolean_step-lt :
    (p : ℕ) (cur : List ℕ) (m : Memory) (rest : List ℕ) (m' : Memory)
    → transfer_boolean_step p cur m ≡ ok (rest, m')
    → length rest < length cur
unfolding transfer_boolean_step
transfer_boolean_step-lt p [] m rest m' h = cc
transfer_boolean_step-lt p (b ∷ r) m rest m' h = ground arith

module _ (c : Machine) where
  transfer-le :
      (t : DecisionType) (d : Decision) (cur : List ℕ) (m : Memory) (rest : List ℕ) (m' : Memory)
      → transfer c t d cur m ≡ ok (rest, m')
      → length rest ≤ length cur
  unfolding transfer
  transfer-le skip_fixlen d cur m rest m' h = ground (arith, length-drop d.length cur)
  transfer-le skip_varlen d cur m rest m' h =
      let (q, e, k) = >>=-eq-ok (decode_varlen_length cur) _ h in
      ground (arith, decode_varlen_length-lt cur q.0 q.1 e, length-drop q.0 q.1)
  transfer-le transfer_boolean d cur m rest m' h =
      omega (arith, transfer_boolean_step-lt d.p cur m rest m' h)
  transfer-le transfer_fixlen d cur m rest m' h = ground (arith, length-drop d.length cur)
  transfer-le transfer_fixlen_endianness d cur m rest m' h =
      ground (arith, length-drop d.length cur)
  transfer-le transfer_fixlen_octets d cur m rest m' h = ground (arith, length-drop d.length cur)
  transfer-le transfer_float_into_double d cur m rest m' h = ground (arith, length-drop 4 cur)
  transfer-le transfer_float_into_double_endianness d cur m rest m' h =
      ground (arith, length-drop 4 cur)
  transfer-le transfer_varlen d cur m rest m' h =
      let (q, e, k) = >>=-eq-ok (decode_varlen_length cur) _ h in
      ground (arith, decode_varlen_length-lt cur q.0 q.1 e, length-drop q.0 q.1)

  pub step-le :
      (d : Decision) (cur : List ℕ) (m : Memory) (rest : List ℕ) (m' : Memory)
      → step c d cur m ≡ ok (rest, m')
      → (0 < length cur) × (length rest ≤ length cur)
  unfolding step
  step-le d cur m rest m' h = ground (arith, transfer-le d.type d cur m rest m')

  pub run-le :
      (ds : List Decision) (cur : List ℕ) (m : Memory) (rest : List ℕ) (m' : Memory)
      → run c ds cur m ≡ ok (rest, m')
      → length rest ≤ length cur
  unfolding run
  run-le [] cur m rest m' h = ground arith
  run-le (d ∷ ds) cur m rest m' h =
      let (q, e, k) = >>=-eq-ok (step c d cur m) _ h in
      omega (arith, step-le d cur m q.0 q.1 e, run-le ds q.0 q.1 rest m' k)
