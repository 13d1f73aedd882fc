-- ===== src/RoundTrip/Sized.antt =====
-- PlacementTemplate::data_record_size and what a plan of EncodePlan writes.
use libfc.Prelude.{
  ℕ, ◌+◌, ◌%◌, ◌^◌, ◌≡◌, ◌≢◌, ok_injective, throw_if, ◌&&◌, ◌<◌, ◌∙◌, ◌⊎◌, refl, sym, ap, arith,
  Bool, true, false, List, [], ◌∷◌, ◌++◌, Option, none, some, map, ◌==◌, if◌then◌else◌, ltb, All,
  Bool-cases, inl, inr, ok, >>=-eq-ok,
}
use libfc.Info.Types.{IeType, octet_array, string, unknown, InfoElement, ipfix_varlen}
use mathlib.Core.Path.{subst}
use libfc.Octets.{Memory, Cell, native, octets}
use libfc.Placement.Template.{PlacementInfo, PlacementTemplate, lookup_placement}
use libfc.Placement.Size.{varlen_len, varlen_sizes, data_record_size}
use libfc.Placement.Laid.{IsLaid, fixed_at, varlen_at, fixed_sum, varlen_places}
use libfc.Encode.Plan
use libfc.Encode.Plan.{
  DecisionType, encode_none, encode_boolean, encode_fixlen, encode_fixlen_endianness,
  encode_fixlen_octets, encode_varlen, encode_double_as_float_endianness, encode_double_as_float,
  encode_decision, reduced, exact, encode_fixlen_maybe_endianness, encode_double_maybe_endianness,
  octets_decision, float64_decision, other_decision, decide, decide_at, decide_all, encode_plan,
  is_fixlen,
}
use libfc.Decode.Plan.{Decision}
use libfc.RoundTrip.Field.{IsPlaced}
use libfc.RoundTrip.Record.{AllPaired}
use libfc.RoundTrip.Room.{wire_size, record_size}

-- The octets of values of variable length.
abbrev varlen_size : Cell → ℕ
varlen_size (octets a) = a.length + (if ltb a.length 255 then 1 else 3)
varlen_size (native v) = 0

abbrev varlen_total : Memory → List ℕ → ℕ
varlen_total m [] = 0
varlen_total m (p ∷ ps) = varlen_size (m p) + varlen_total m ps

abbrev IsArray : Cell → Type 0
IsArray (octets a) = a.length < 2 ^ 16
IsArray (native v) = ⊥

varlen_len-IsArray :
    (m : Memory) (p : ℕ) (c : Cell)
    → m p ≡ c
    → IsArray c
    → (n : ℕ) × (varlen_len m p ≡ ok n) × (varlen_size c ≡ n + (if ltb n 255 then 1 else 3))
unfolding varlen_len
varlen_len-IsArray m p (native b) e v = absurd v
varlen_len-IsArray m p (octets a) e v =
    let kept : a.length % 2 ^ 16 ≡ a.length = omega (arith, v) in
    (a.length, rw (e, varlen_len, kept) refl, refl)

varlen_sizes-total :
    (m : Memory) (is : List PlacementInfo)
    → All (λ p. IsArray (m p)) (map (λ i. i.address) is)
    → varlen_sizes m is ≡ ok (varlen_total m (map (λ i. i.address) is))
unfolding varlen_sizes
varlen_sizes-total m [] v = refl
varlen_sizes-total m (i ∷ is) v =
    let (n, e, size) = varlen_len-IsArray m i.address (m i.address) refl v.0 in
    rw (e, varlen_sizes-total m is v.1, size) refl

-- A decision for an element of variable length, or one that writes as many octets as are placed.
abbrev Sized : ℕ → ℕ → Plan.Decision → Type 0
Sized p size e =
    (((size == ipfix_varlen) ≡ true) × (e.type ≡ encode_varlen) × (e.address ≡ p))
    ⊎ (((size == ipfix_varlen) ≡ false) × ((c : Cell) → wire_size e.type e c ≡ size))

octets_decision-Sized : (le : Bool) (p size : ℕ) → Sized p size (octets_decision le p size)
unfolding octets_decision
octets_decision-Sized le p size = elim (Bool-cases (size == ipfix_varlen)) [
  | inl e ↦ inl (e, rw (e, octets_decision) refl, rw (e, octets_decision) refl)
  | inr e ↦ inr (e, λ c. rw (e, octets_decision) refl)
]

-- The octets of a decision that is not for a variable length.
abbrev plain_size : DecisionType → ℕ → ℕ
plain_size encode_boolean n = 1
plain_size encode_varlen n = ipfix_varlen
plain_size _ n = n

wire_size-plain :
    (et : DecisionType) (e : Plan.Decision) (size : ℕ) (c : Cell)
    → (size == ipfix_varlen) ≡ false
    → plain_size et e.encoded_length ≡ size
    → wire_size et e c ≡ size
wire_size-plain encode_varlen e size c h k = absurd (ground arith)
wire_size-plain encode_boolean e size c h k = k
wire_size-plain _ e size c h k = k

encode_decision-plain :
    (le : Bool) (t : IeType) (p size : ℕ) (e : Plan.Decision)
    → t ≢ octet_array
    → t ≢ unknown
    → t ≢ string
    → encode_decision le t p size ≡ ok e
    → ((size == ipfix_varlen) ≡ false) × (plain_size e.type e.encoded_length ≡ size)
unfolding encode_decision other_decision reduced exact encode_fixlen_maybe_endianness
    encode_double_maybe_endianness octets_decision float64_decision
encode_decision-plain le octet_array p size e n1 n2 n3 h = absurd (n1 refl)
encode_decision-plain le unknown p size e n1 n2 n3 h = absurd (n2 refl)
encode_decision-plain le string p size e n1 n2 n3 h = absurd (n3 refl)
encode_decision-plain le _ p size e n1 n2 n3 h = (ground arith, ground arith)

encode_decision-Sized :
    (le : Bool) (t : IeType) (p size : ℕ) (e : Plan.Decision)
    → encode_decision le t p size ≡ ok e
    → Sized p size e
unfolding encode_decision other_decision
encode_decision-Sized le octet_array p size e h =
    subst (Sized p size) (ok_injective h) (octets_decision-Sized le p size)
encode_decision-Sized le unknown p size e h =
    subst (Sized p size) (ok_injective h) (octets_decision-Sized le p size)
encode_decision-Sized le string p size e h =
    subst (Sized p size) (ok_injective h) (octets_decision-Sized le p size)
encode_decision-Sized le t p size e h =
    let (fixed, same) = encode_decision-plain le t p size e (λ k. cc) (λ k. cc) (λ k. cc) h in
    inr (fixed, λ c. wire_size-plain e.type e size c fixed same)

decide_at-Sized :
    (le : Bool) (place : Option (ℕ × ℕ)) (type : Option IeType) (e : Plan.Decision)
    → decide_at le place type ≡ ok e
    → (p size : ℕ) × (place ≡ some (p, size)) × Sized p size e
unfolding decide_at
decide_at-Sized le place none e h = absurd (ground arith)
decide_at-Sized le none (some type) e h = absurd (ground arith)
decide_at-Sized le (some (p, size)) (some type) e h =
    let (e', k, h1) = >>=-eq-ok (encode_decision le type p size) _ h in
    let (u, k2, h2) =
      >>=-eq-ok (throw_if (is_fixlen le e'.type && ltb e'.unencoded_length e'.encoded_length)) _
        h1 in
    (
      p,
      size,
      refl,
      subst (Sized p size) (ok_injective h2) (encode_decision-Sized le type p size e' k),
    )

decide-Sized :
    (le : Bool) (t : PlacementTemplate) (ie : InfoElement) (e : Plan.Decision)
    → decide le t ie ≡ ok e
    → (p size : ℕ) × (lookup_placement t.placements ie ≡ some (p, size)) × Sized p size e
unfolding decide decide_at
decide-Sized le t ie e h = decide_at-Sized le (lookup_placement t.placements ie) ie.ietype e h

is_varlen-IsArray :
    (e : Plan.Decision) (et : DecisionType) (cs ct : Cell)
    → et ≡ encode_varlen
    → IsPlaced et e cs ct
    → wire_size et e cs < 2 ^ 16
    → IsArray cs × (wire_size et e cs ≡ varlen_size cs)
is_varlen-IsArray e encode_varlen (octets a) (octets b) k v l = (ground arith, refl)
is_varlen-IsArray e encode_varlen (octets a) (native b) k v l = absurd v
is_varlen-IsArray e encode_varlen (native a) ct k v l = absurd v
is_varlen-IsArray e _ cs ct k v l = absurd (ground arith)

-- One element more.
sums-step :
    (p size f : ℕ) (ps : List ℕ) (e : Plan.Decision) (es : List Plan.Decision) (m : Memory)
    (ct : Cell)
    → Sized p size e
    → IsPlaced e.type e (m e.address) ct
    → wire_size e.type e (m e.address) < 2 ^ 16
    → All (λ q. IsArray (m q)) ps
    → record_size es m ≡ f + varlen_total m ps
    → All (λ q. IsArray (m q)) (varlen_at (some (p, size)) ++ ps)
      × (record_size (e ∷ es) m
          ≡ fixed_at (some (p, size)) + f + varlen_total m (varlen_at (some (p, size)) ++ ps))
sums-step p size f ps e es m ct (inl (k, varlen, here)) placed l v same =
    let (array, wire) = is_varlen-IsArray e e.type (m e.address) ct varlen placed l in
    let there = ap (λ q. varlen_size (m q)) here in
    rw k ((subst (λ q. IsArray (m q)) here array, v), omega (arith, wire, there, same))
sums-step p size f ps e es m ct (inr (k, fixed)) placed l v same =
    rw k (v, omega (arith, fixed (m e.address), same))

paired-cons :
    (e : Plan.Decision) (es : List Plan.Decision) (ds : List Decision) (m m2 : Memory)
    → AllPaired (e ∷ es) ds m m2
    → (d : Decision) × (ds' : List Decision) × (ds ≡ d ∷ ds')
paired-cons e es [] m m2 v = absurd v
paired-cons e es (d ∷ ds) m m2 v = (d, ds, refl)

-- What the plan writes for the elements: the fixed sizes, and the values of variable length.
decide_all-sums :
    (le : Bool) (t : PlacementTemplate) (ies : List InfoElement) (es : List Plan.Decision)
    (ds : List Decision) (m m2 : Memory)
    → decide_all le t ies ≡ ok es
    → AllPaired es ds m m2
    → record_size es m < 2 ^ 16
    → All (λ p. IsArray (m p)) (varlen_places t.placements ies)
      × (record_size es m
          ≡ fixed_sum t.placements ies + varlen_total m (varlen_places t.placements ies))
unfolding decide_all
decide_all-sums le t [] es ds m m2 h v l =
    let none_left = ok_injective h in (tt, sym (ap (λ k. record_size k m) none_left))
decide_all-sums le t (ie ∷ ies) es ds m m2 h v l =
    let (e, first, h1) = >>=-eq-ok (decide le t ie) _ h in
    let (rest, more, h2) = >>=-eq-ok (decide_all le t ies) _ h1 in
    let (p, size, found, sized) = decide-Sized le t ie e first in
    let (v', l') =
      subst (λ k. AllPaired k ds m m2 × (record_size k m < 2 ^ 16)) (sym (ok_injective h2))
        (v, l) in
    let (d, ds', eq) = paired-cons e rest ds m m2 v' in
    let w = subst (λ k. AllPaired (e ∷ rest) k m m2) eq v' in
    let (arrays, same) = decide_all-sums le t ies rest ds' m _ more w.3 (omega (arith, l')) in
    let (arrays', same') =
      sums-step p size (fixed_sum t.placements ies) (varlen_places t.placements ies) e rest m
        (m2 d.p) sized w.2 (omega (arith, l')) arrays same in
    rw found (arrays', ap (λ k. record_size k m) (sym (ok_injective h2)) ∙ same')

-- The size that data_record_size computes for a template is what the plan made for it writes, so that the
-- assertion of place_values on the two holds.
pub data_record_size-record_size :
    (le : Bool) (t : PlacementTemplate) (es : List Plan.Decision) (ds : List Decision)
    (m m2 : Memory)
    → IsLaid t
    → encode_plan le t ≡ ok es
    → AllPaired es ds m m2
    → record_size es m < 2 ^ 16
    → data_record_size m t ≡ ok (record_size es m)
unfolding encode_plan data_record_size
data_record_size-record_size le t es ds m m2 laid planned v l =
    let (arrays, same) = decide_all-sums le t t.ies es ds m m2 planned v l in
    let arrays' = subst (All (λ p. IsArray (m p))) (sym laid.varlen) arrays in
    rw (varlen_sizes-total m t.varlen_ies arrays', laid.varlen, laid.fixed, same) refl
