-- ===== src/Decode/Locality.antt =====
-- A successful run of a plan does not depend on what follows the octets that it consumes.
use libfc.Prelude.{
  ℕ, ◌≡◌, ◌≤◌, arith, List, [], ◌∷◌, ◌++◌, length, length-append, take-append_left,
  drop-append_left, ok, >>=-eq-ok,
}
use libfc.Octets.{Memory}
use libfc.Decode.Plan.{
  Machine, Decision, DecisionType, skip_fixlen, skip_varlen, transfer_fixlen, transfer_boolean,
  transfer_fixlen_endianness, transfer_fixlen_octets, transfer_float_into_double,
  transfer_float_into_double_endianness, transfer_varlen,
}
use libfc.Decode.Execute.{
  decode_varlen_length, checked_length, transfer_boolean_step, transfer, step, run, execute,
}
use libfc.Decode.Bounds.{decode_varlen_length-lt, run-le}

decode_varlen_length-append :
    (cur more : List ℕ) (n : ℕ) (rest : List ℕ)
    → decode_varlen_length cur ≡ ok (n, rest)
    → decode_varlen_length (cur ++ more) ≡ ok (n, rest ++ more)
unfolding decode_varlen_length checked_length
decode_varlen_length-append [] more n rest h = cc
decode_varlen_length-append (b ∷ []) [] n rest h = ground arith
decode_varlen_length-append (b ∷ []) (x ∷ []) n rest h = ground arith
decode_varlen_length-append (b ∷ []) (x ∷ y ∷ more) n rest h = ground arith
decode_varlen_length-append (b ∷ hi ∷ []) [] n rest h = ground arith
decode_varlen_length-append (b ∷ hi ∷ []) (x ∷ more) n rest h = ground arith
decode_varlen_length-append (b ∷ hi ∷ lo ∷ r) more n rest h = ground (arith, length-append r more)

transfer_boolean_step-append :
    (p : ℕ) (cur more : List ℕ) (m : Memory) (rest : List ℕ) (m' : Memory)
    → transfer_boolean_step p cur m ≡ ok (rest, m')
    → transfer_boolean_step p (cur ++ more) m ≡ ok (rest ++ more, m')
unfolding transfer_boolean_step
transfer_boolean_step-append p [] more m rest m' h = cc
transfer_boolean_step-append p (b ∷ r) more m rest m' h = ground arith

module _ (c : Machine) (more : List ℕ) where
  transfer-append :
      (t : DecisionType) (d : Decision) (cur : List ℕ) (m : Memory) (rest : List ℕ) (m' : Memory)
      → transfer c t d cur m ≡ ok (rest, m')
      → transfer c t d (cur ++ more) m ≡ ok (rest ++ more, m')
  unfolding transfer
  transfer-append skip_fixlen d cur m rest m' h =
      ground (arith, length-append cur more, drop-append_left d.length cur more)
  transfer-append skip_varlen d cur m rest m' h =
      let (q, e, k) = >>=-eq-ok (decode_varlen_length cur) _ h in
      ground (
        arith,
        decode_varlen_length-append cur more q.0 q.1 e,
        decode_varlen_length-lt cur q.0 q.1 e,
        length-append q.1 more,
        drop-append_left q.0 q.1 more,
      )
  transfer-append transfer_boolean d cur m rest m' h =
      transfer_boolean_step-append d.p cur more m rest m' h
  transfer-append transfer_fixlen d cur m rest m' h = ground (
    arith,
    length-append cur more,
    drop-append_left d.length cur more,
    take-append_left d.length cur more,
  )
  transfer-append transfer_fixlen_endianness d cur m rest m' h = ground (
    arith,
    length-append cur more,
    drop-append_left d.length cur more,
    take-append_left d.length cur more,
  )
  transfer-append transfer_fixlen_octets d cur m rest m' h = ground (
    arith,
    length-append cur more,
    drop-append_left d.length cur more,
    take-append_left d.length cur more,
  )
  transfer-append transfer_float_into_double d cur m rest m' h =
      ground
        (arith, length-append cur more, drop-append_left 4 cur more, take-append_left 4 cur more)
  transfer-append transfer_float_into_double_endianness d cur m rest m' h =
      ground
        (arith, length-append cur more, drop-append_left 4 cur more, take-append_left 4 cur more)
  transfer-append transfer_varlen d cur m rest m' h =
      let (q, e, k) = >>=-eq-ok (decode_varlen_length cur) _ h in
      ground (
        arith,
        decode_varlen_length-append cur more q.0 q.1 e,
        decode_varlen_length-lt cur q.0 q.1 e,
        length-append q.1 more,
        drop-append_left q.0 q.1 more,
        take-append_left q.0 q.1 more,
      )

  step-append :
      (d : Decision) (cur : List ℕ) (m : Memory) (rest : List ℕ) (m' : Memory)
      → step c d cur m ≡ ok (rest, m')
      → step c d (cur ++ more) m ≡ ok (rest ++ more, m')
  unfolding step
  step-append d cur m rest m' h =
      ground (arith, length-append cur more, transfer-append d.type d cur m rest m')

  pub run-append :
      (ds : List Decision) (cur : List ℕ) (m : Memory) (rest : List ℕ) (m' : Memory)
      → run c ds cur m ≡ ok (rest, m')
      → run c ds (cur ++ more) m ≡ ok (rest ++ more, m')
  unfolding run
  run-append [] cur m rest m' h = ground arith
  run-append (d ∷ ds) cur m rest m' h =
      let (q, e, k) = >>=-eq-ok (step c d cur m) _ h in
      ground (arith, step-append d cur m q.0 q.1 e, run-append ds q.0 q.1 rest m' k)

-- Where a plan executes on a buffer, it consumes at most the buffer, and at most 65535 octets; and
-- it consumes as many and leaves the same memory if more octets follow.
pub execute_local :
    (c : Machine) (plan : List Decision) (buf more : List ℕ) (m : Memory) (n : ℕ) (m' : Memory)
    → execute c plan buf m ≡ ok (n, m')
    → (n ≤ length buf) × (n ≤ 65535) × (execute c plan (buf ++ more) m ≡ ok (n, m'))
unfolding execute
execute_local c plan buf more m n m' h =
    let (q, e, k) = >>=-eq-ok (run c plan buf m) _ h in
    let le = run-le c plan buf m q.0 q.1 e in
    let longer = run-append c more plan buf m q.0 q.1 e in
    (ground arith, ground arith, ground (arith, length-append buf more, length-append q.0 more))
