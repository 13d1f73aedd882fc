-- ===== src/Decode/Typed.antt =====
-- The plans that the constructor builds write each object as what it is.
use libfc.Prelude.{
  ℕ, ◌≡◌, ◌≢◌, arith, true, List, [], ◌∷◌, ok, undefined, >>=-eq-ok, bind_defined, All, Option,
  none, some, Bool-cases, inl, inr,
}
use libfc.Info.Types.{
  IeType, octet_array, unsigned8, unsigned16, unsigned32, unsigned64, signed8, signed16, signed32,
  signed64, float32, float64, boolean, mac_address, string, date_time_seconds,
  date_time_milliseconds, date_time_microseconds, date_time_nanoseconds, ipv4_address, ipv6_address,
  unknown, InfoElement,
}
use libfc.Octets.{Memory}
use libfc.Octets.Typing.{shape, IsNative, IsOctets}
use libfc.Placement.Template.{PlacementTemplate, lookup_placement}
use libfc.Decode.Plan.{
  Machine, Decision, DecisionType, is_skip, skip_fixlen, skip_varlen, transfer_fixlen,
  transfer_boolean, transfer_fixlen_endianness, transfer_fixlen_octets, transfer_float_into_double,
  transfer_float_into_double_endianness, transfer_varlen, transfer_decision, other_decision,
  native_decision, address_decision, octets_decision, float64_decision, wide_time_decision,
  skip_decision, decide, decide_all, coalesce_from, coalesce, decode_plan,
  transfer_fixlen_maybe_endianness, transfer_float_into_double_maybe_endianness,
}
use libfc.Decode.Coalesce.{IsPending, with_pending}
use mathlib.Core.Path.{subst}
use libfc.Prelude.{sym}
use libfc.Decode.Plan.{decide_at}
use libfc.Prelude.{◌+◌, ◌%◌, ◌^◌}
use libfc.Decode.Execute.{run, execute}
use libfc.Decode.Safety.{Fits, AllFit, IsWidening, run_defined}

-- The object that an element of a type is placed in: a native value of the type's size, or an octet
-- array.
abbrev pub Holds : IeType → Option ℕ → Type 0
Holds octet_array s = IsOctets s
Holds string s = IsOctets s
Holds unknown s = IsOctets s
Holds unsigned8 s = IsNative 1 s
Holds unsigned16 s = IsNative 2 s
Holds unsigned32 s = IsNative 4 s
Holds unsigned64 s = IsNative 8 s
Holds signed8 s = IsNative 1 s
Holds signed16 s = IsNative 2 s
Holds signed32 s = IsNative 4 s
Holds signed64 s = IsNative 8 s
Holds float32 s = IsNative 4 s
Holds float64 s = IsNative 8 s
Holds boolean s = IsNative 1 s
Holds mac_address s = IsNative 6 s
Holds date_time_seconds s = IsNative 4 s
Holds date_time_milliseconds s = IsNative 8 s
Holds date_time_microseconds s = IsNative 8 s
Holds date_time_nanoseconds s = IsNative 8 s
Holds ipv4_address s = IsNative 4 s
Holds ipv6_address s = IsNative 16 s

-- What is placed for an element of the wire template holds the element's type.
abbrev pub HoldsAt : Option (ℕ × ℕ) → Option IeType → Memory → Type 0
HoldsAt none type m = Unit {0}
HoldsAt (some (p, size)) none m = Unit {0}
HoldsAt (some (p, size)) (some type) m = Holds type (shape (m p))

abbrev pub AllHold : PlacementTemplate → List InfoElement → Memory → Type 0
AllHold t wire m = All (λ ie. HoldsAt (lookup_placement t.placements ie) ie.ietype m) wire

transfer_decision-Fits :
    (c : Machine) (type : IeType) (p len : ℕ) (s : Option ℕ) (d : Decision)
    → Holds type s
    → transfer_decision c type p len ≡ ok d
    → (d.p ≡ p) × Fits d.type d s
unfolding transfer_decision other_decision native_decision address_decision octets_decision
    float64_decision wide_time_decision transfer_fixlen_maybe_endianness
    transfer_float_into_double_maybe_endianness
transfer_decision-Fits c octet_array p len s d h e = (ground arith, ground arith)
transfer_decision-Fits c _ p len s d h e = (ground arith, ground arith)

Fits-skip : (t : DecisionType) (d : Decision) (s : Option ℕ) → is_skip t ≡ true → Fits t d s
unfolding is_skip
Fits-skip skip_fixlen d s h = tt
Fits-skip skip_varlen d s h = cc
Fits-skip transfer_fixlen d s h = cc
Fits-skip transfer_boolean d s h = cc
Fits-skip transfer_fixlen_endianness d s h = cc
Fits-skip transfer_fixlen_octets d s h = cc
Fits-skip transfer_float_into_double d s h = cc
Fits-skip transfer_float_into_double_endianness d s h = cc
Fits-skip transfer_varlen d s h = cc

decide_at-Fits :
    (c : Machine) (place : Option (ℕ × ℕ)) (type : Option IeType) (len : ℕ) (m : Memory)
    (d : Decision)
    → HoldsAt place type m
    → decide_at c place type len ≡ ok d
    → Fits d.type d (shape (m d.p))
unfolding decide_at skip_decision
decide_at-Fits c none type len m d h e = ground arith
decide_at-Fits c (some (p, size)) none len m d h e = cc
decide_at-Fits c (some (p, size)) (some type) len m d h e =
    let (at, fits) = transfer_decision-Fits c type p len (shape (m p)) d h e in
    subst (λ q. Fits d.type d (shape (m q))) (sym at) fits

decide_all_fit :
    (c : Machine) (t : PlacementTemplate) (wire : List InfoElement) (m : Memory)
    (ds : List Decision)
    → AllHold t wire m
    → decide_all c t wire ≡ ok ds
    → AllFit ds m
unfolding decide_all decide
decide_all_fit c t [] m [] h e = tt
decide_all_fit c t [] m (d ∷ ds) h e = cc
decide_all_fit c t (ie ∷ wire) m ds h e =
    let (d, e1, k) = >>=-eq-ok (decide c t ie) _ e in
    let (rest, e2, k') = >>=-eq-ok (decide_all c t wire) _ k in
    let eq : (d ∷ rest) ≡ ds = ground arith in
    subst (λ x. AllFit x m) eq
      (
        decide_at-Fits c (lookup_placement t.placements ie) ie.ietype ie.len m d h.0 e1,
        decide_all_fit c t wire m rest h.1 e2,
      )

coalesce_from-AllFit :
    (m : Memory) (ds : List Decision) (o : Option Decision)
    → IsPending o
    → AllFit (with_pending o ds) m
    → AllFit (coalesce_from o ds) m
unfolding coalesce_from
coalesce_from-AllFit m [] none hs h = h
coalesce_from-AllFit m [] (some s) hs h = h
coalesce_from-AllFit m (d ∷ ds) none hs h = elim (Bool-cases (is_skip d.type)) [
  | inl e ↦ rw (e, coalesce_from) (coalesce_from-AllFit m ds (some d) e h)
  | inr e ↦ rw (e, coalesce_from) (h.0, coalesce_from-AllFit m ds none tt h.1)
]
coalesce_from-AllFit m (d ∷ ds) (some s) hs h = elim (Bool-cases (is_skip d.type)) [
  | inl e ↦
      rw (e, coalesce_from)
        (coalesce_from-AllFit m ds (some (record s { length = (s.length + d.length) % 2 ^ 16 })) hs
          (Fits-skip s.type _ _ hs, h.1.1))
  | inr e ↦ rw (e, coalesce_from) (h.0, (h.1.0, coalesce_from-AllFit m ds none tt h.1.1))
]

-- A plan that the constructor builds, where every placed element of the wire template has been
-- placed in an object of the element's type, executes on any buffer without undefined behaviour:
-- it returns, throws, or fails an assertion. A float widens to eight octets.
pub execute-decode_plan_defined :
    (c : Machine) (t : PlacementTemplate) (wire : List InfoElement) (plan : List Decision)
    (buf : List ℕ) (m : Memory)
    → IsWidening c.float_to_double
    → AllHold t wire m
    → decode_plan c t wire ≡ ok plan
    → execute c plan buf m ≢ undefined
unfolding decode_plan coalesce execute
execute-decode_plan_defined c t wire plan buf m w h e =
    let (ds, e1, k) = >>=-eq-ok (decide_all c t wire) _ e in
    let eq : coalesce_from none ds ≡ plan = ground arith in
    let fit = coalesce_from-AllFit m ds none tt (decide_all_fit c t wire m ds h e1) in
    bind_defined (run c plan buf m) _ (run_defined c plan buf m w (subst (λ x. AllFit x m) eq fit))
      λ q e2. ground arith
