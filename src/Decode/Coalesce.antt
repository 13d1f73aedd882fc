-- ===== src/Decode/Coalesce.antt =====
-- Joining adjacent skips keeps what a plan does.
use libfc.Prelude.{
  ℕ, ◌+◌, ◌%◌, ◌^◌, ◌≡◌, ◌<◌, refl, arith, true, List, length, length-drop, drop, drop-drop, ok,
  >>=-eq-ok, leb, assert, ◌>>◌, ◌>>=◌, Option, some, ◌∷◌, Bool-cases, none, inl, inr,
}
use libfc.Octets.{Memory}
use libfc.Decode.Bounds.{step-le}
use libfc.Prelude.{[]}
use libfc.Decode.Plan.{
  Machine, Decision, DecisionType, is_skip, skip_fixlen, skip_varlen, transfer_fixlen,
  transfer_boolean, transfer_fixlen_endianness, transfer_fixlen_octets, transfer_float_into_double,
  transfer_float_into_double_endianness, transfer_varlen, coalesce_from, coalesce,
}
use libfc.Decode.Execute.{transfer, step, execute, run}

-- What a fixed skip does.
transfer_skip :
    (c : Machine) (t : DecisionType) (d : Decision) (cur : List ℕ) (m : Memory)
    → is_skip t ≡ true
    → transfer c t d cur m ≡ (assert (leb d.length (length cur)) >> ok (drop d.length cur, m))
unfolding is_skip transfer
transfer_skip c skip_fixlen d cur m h = refl
transfer_skip c skip_varlen d cur m h = cc
transfer_skip c transfer_fixlen d cur m h = cc
transfer_skip c transfer_boolean d cur m h = cc
transfer_skip c transfer_fixlen_endianness d cur m h = cc
transfer_skip c transfer_fixlen_octets d cur m h = cc
transfer_skip c transfer_float_into_double d cur m h = cc
transfer_skip c transfer_float_into_double_endianness d cur m h = cc
transfer_skip c transfer_varlen d cur m h = cc

-- Two skips in a row, where both succeed, and the skip that joins them.
step_skips :
    (c : Machine) (s d j : Decision) (cur : List ℕ) (m : Memory) (rest : List ℕ) (m' : Memory)
    → is_skip s.type ≡ true
    → is_skip d.type ≡ true
    → length cur < 2 ^ 16
    → j ≡ record s { length = (s.length + d.length) % 2 ^ 16 }
    → (step c s cur m >>= λ r. step c d r.0 r.1) ≡ ok (rest, m')
    → step c j cur m ≡ ok (rest, m')
unfolding step
step_skips c s d j cur m rest m' hs hd short ej h =
    let (q, e, k) = >>=-eq-ok (step c s cur m) _ h in
    let first = transfer_skip c s.type s cur m hs in
    let second = transfer_skip c d.type d q.0 q.1 hd in
    let joined = transfer_skip c j.type j cur m (ground arith) in
    ground (arith, length-drop s.length cur, drop-drop s.length d.length j.length cur)

-- A run whose first decision is kept.
run_keep :
    (c : Machine) (d : Decision) (ds es : List Decision) (cur : List ℕ) (m : Memory) (rest : List ℕ)
    (m' : Memory)
    → length cur < 2 ^ 16
    → ((cur' : List ℕ) (m1 : Memory)
        → length cur' < 2 ^ 16
        → run c ds cur' m1 ≡ ok (rest, m')
        → run c es cur' m1 ≡ ok (rest, m'))
    → run c (d ∷ ds) cur m ≡ ok (rest, m')
    → run c (d ∷ es) cur m ≡ ok (rest, m')
unfolding run
run_keep c d ds es cur m rest m' short keep h =
    let (q, e, k) = >>=-eq-ok (step c d cur m) _ h in
    let le = step-le c d cur m q.0 q.1 e in rw e (keep q.0 q.1 (omega arith) k)

-- Two skips that become one.
run_join :
    (c : Machine) (s d : Decision) (ds : List Decision) (cur : List ℕ) (m : Memory) (rest : List ℕ)
    (m' : Memory)
    → is_skip s.type ≡ true
    → is_skip d.type ≡ true
    → length cur < 2 ^ 16
    → run c (s ∷ d ∷ ds) cur m ≡ ok (rest, m')
    → run c (record s { length = (s.length + d.length) % 2 ^ 16 } ∷ ds) cur m ≡ ok (rest, m')
unfolding run
run_join c s d ds cur m rest m' hs hd short h =
    let (q, e, k) = >>=-eq-ok (step c s cur m) _ h in
    let (r, e', k') = >>=-eq-ok (step c d q.0 q.1) _ k in
    ground (
      arith,
      step_skips c s d (record s { length = (s.length + d.length) % 2 ^ 16 }) cur m r.0 r.1 hs hd
          short refl (cc),
    )

abbrev pub IsPending : Option Decision → Type 0
IsPending none = Unit {0}
IsPending (some s) = is_skip s.type ≡ true

-- The decisions that a state of the loop still stands for.
abbrev pub with_pending : Option Decision → List Decision → List Decision
with_pending none ds = ds
with_pending (some s) ds = s ∷ ds

-- A run that succeeds does so, with the same result, when its skips are joined.
run-coalesce_from :
    (c : Machine) (ds : List Decision) (o : Option Decision) (cur : List ℕ) (m : Memory)
    (rest : List ℕ) (m' : Memory)
    → IsPending o
    → length cur < 2 ^ 16
    → run c (with_pending o ds) cur m ≡ ok (rest, m')
    → run c (coalesce_from o ds) cur m ≡ ok (rest, m')
unfolding coalesce_from
run-coalesce_from c [] none cur m rest m' hs short h = h
run-coalesce_from c [] (some s) cur m rest m' hs short h = h
run-coalesce_from c (d ∷ ds) none cur m rest m' hs short h = elim (Bool-cases (is_skip d.type)) [
  | inl e ↦ rw (e, coalesce_from) (run-coalesce_from c ds (some d) cur m rest m' e short h)
  | inr e ↦
      rw (e, coalesce_from)
        (run_keep c d ds (coalesce_from none ds) cur m rest m' short
          (λ cur' m1. run-coalesce_from c ds none cur' m1 rest m' tt) h)
]
run-coalesce_from c (d ∷ ds) (some s) cur m rest m' hs short h =
    elim (Bool-cases (is_skip d.type)) [
      | inl e ↦
          rw (e, coalesce_from)
            (run-coalesce_from c ds (some (record s { length = (s.length + d.length) % 2 ^ 16 }))
              cur m rest m' hs short (run_join c s d ds cur m rest m' hs e short h))
      | inr e ↦
          rw (e, coalesce_from)
            (run_keep c s (d ∷ ds) (d ∷ coalesce_from none ds) cur m rest m' short
              (λ cur' m1 short'.
                run_keep c d ds (coalesce_from none ds) cur' m1 rest m' short'
                  (λ cur2 m2. run-coalesce_from c ds none cur2 m2 rest m' tt))
              h)
    ]

-- Where the decisions as first taken execute on a buffer, so does the plan with its skips joined,
-- and it consumes as many octets and leaves the same memory: in a buffer of at most 65535 octets
-- the sum of the lengths does not wrap.
pub execute-coalesce :
    (c : Machine) (ds : List Decision) (buf : List ℕ) (m : Memory) (n : ℕ) (m' : Memory)
    → length buf < 2 ^ 16
    → execute c ds buf m ≡ ok (n, m')
    → execute c (coalesce ds) buf m ≡ ok (n, m')
unfolding execute coalesce
execute-coalesce c ds buf m n m' short h =
    let (q, e, k) = >>=-eq-ok (run c ds buf m) _ h in
    rw (run-coalesce_from c ds none buf m q.0 q.1 tt short e) k
