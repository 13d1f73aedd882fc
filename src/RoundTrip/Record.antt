-- ===== src/RoundTrip/Record.antt =====
-- A data record, through EncodePlan::execute and DecodePlan::execute.
use mathlib.Core.List.{append-nil, append_assoc}
use libfc.Prelude.{
  refl, ℕ, ◌^◌, ◌<◌, ◌≡◌, arith, List, [], ◌∷◌, ◌++◌, length, ok, ◌≤◌, length-append, inl, ◌⊎◌, ◌+◌,
  inr, if◌then◌else◌, ltb, >>=-eq-ok, lt→ltb, assert,
}
use libfc.Octets.{Memory, Cell, native, octets, update, BasicOctetArray}
use libfc.Encode.Plan
use libfc.Encode.Plan.{
  encode_none, encode_boolean, encode_fixlen, encode_fixlen_endianness, encode_fixlen_octets,
  encode_varlen, encode_double_as_float_endianness, encode_double_as_float,
}
use libfc.Encode.Execute
use libfc.Encode.Execute.{encode, room, load_octets}
use libfc.Decode.Plan.{
  Machine, Decision, DecisionType, transfer_fixlen, transfer_boolean, transfer_fixlen_endianness,
  transfer_fixlen_octets, transfer_varlen,
}
use libfc.Decode.Execute.{transfer, run, step, execute}
use libfc.RoundTrip.Field.{Pair, IsPlaced, received, straight, swapped, truth, fixed_octets, varlen}

-- The field takes at least one octet.
abbrev pub IsWide : DecisionType → Decision → Type 0
IsWide transfer_boolean d = Unit {0}
IsWide transfer_varlen d = Unit {0}
IsWide _ d = 0 < d.length

module _ (c : Machine) (f : List ℕ → List ℕ) (limit : ℕ) (small : limit < 2 ^ 16) where
  -- What a field needs for its value to arrive.
  abbrev Arrives :
      Plan.DecisionType
      → DecisionType
      → Plan.Decision
      → Decision
      → Cell
      → Cell
      → Memory
      → Memory
      → List ℕ
      → List ℕ
      → Type 0
  Arrives et dt e d cs ct m m2 out out' =
      (w : List ℕ) × (out' ≡ out ++ w)
      × (0 < length w)
      × (length out' ≤ limit)
      × ((rest : List ℕ)
          → transfer c dt d (w ++ rest) m2 ≡ ok (rest, update m2 d.p (received et e cs ct)))

  -- The assertion of each case, that the value fits.
  room_fixed :
      (et : Plan.DecisionType) (e : Plan.Decision) (m : Memory) (out out' : List ℕ)
      → (et ≡ encode_fixlen) ⊎ (et ≡ encode_fixlen_endianness) ⊎ (et ≡ encode_fixlen_octets)
      → encode f limit et e m out ≡ ok out'
      → length out + e.encoded_length ≤ limit
  unfolding encode room
  room_fixed encode_fixlen e m out out' q h = ground arith
  room_fixed encode_fixlen_endianness e m out out' q h = ground arith
  room_fixed encode_fixlen_octets e m out out' q h = ground arith
  room_fixed _ e m out out' q h = ground arith

  room_boolean :
      (e : Plan.Decision) (m : Memory) (out out' : List ℕ)
      → encode f limit encode_boolean e m out ≡ ok out'
      → length out + 1 ≤ limit
  unfolding encode room
  room_boolean e m out out' h = ground arith

  room_varlen :
      (e : Plan.Decision) (a : BasicOctetArray) (m : Memory) (out out' : List ℕ)
      → m e.address ≡ octets a
      → encode f limit encode_varlen e m out ≡ ok out'
      → length out + (a.length + (if ltb a.length 255 then 1 else 3)) ≤ limit
  unfolding encode room load_octets
  room_varlen e a m out out' q h = ground arith

  field-Arrives :
      (et : Plan.DecisionType) (dt : DecisionType) (e : Plan.Decision) (d : Decision) (cs ct : Cell)
      (m m2 : Memory) (out out' : List ℕ)
      → Pair et dt e d
      → IsWide dt d
      → IsPlaced et e cs ct
      → m e.address ≡ cs
      → m2 d.p ≡ ct
      → encode f limit et e m out ≡ ok out'
      → Arrives et dt e d cs ct m m2 out out'
  field-Arrives encode_fixlen transfer_fixlen e d (native v) (native old) m m2 out out' p wide
        placed es et h =
      let (w, eq, len, back) =
        straight c f limit e d v old m m2 out out' p placed.0 placed.1 es et h in
      (
        w,
        eq,
        omega arith,
        ground (arith, length-append out w, room_fixed encode_fixlen e m out out' (inl refl) h),
        back,
      )
  field-Arrives encode_fixlen_endianness transfer_fixlen_endianness e d (native v) (native old) m m2
        out out' p wide placed es et h =
      let (w, eq, len, back) =
        swapped c f limit e d v old m m2 out out' p placed.0 placed.1 es et h in
      (
        w,
        eq,
        omega arith,
        ground (
          arith,
          length-append out w,
          room_fixed encode_fixlen_endianness e m out out' (inr (inl refl)) h,
        ),
        back,
      )
  field-Arrives encode_boolean transfer_boolean e d (native (b ∷ [])) (native (o ∷ [])) m m2 out
        out' p wide placed es et h =
      let (w, eq, len, back) = truth c f limit e d b o m m2 out out' es et h in
      (w, eq, omega arith, ground (arith, length-append out w, room_boolean e m out out' h), back)
  field-Arrives encode_fixlen_octets transfer_fixlen_octets e d (octets a) (octets old) m m2 out
        out' p wide placed es et h =
      let (w, eq, len, back) = fixed_octets c f limit e d a old m m2 out out' p placed es et h in
      (
        w,
        eq,
        omega arith,
        ground (
          arith,
          length-append out w,
          room_fixed encode_fixlen_octets e m out out' (inr (inr refl)) h,
        ),
        back,
      )
  field-Arrives encode_varlen transfer_varlen e d (octets a) (octets old) m m2 out out' p wide
        placed es et h =
      let (w, eq, len, back) = varlen c f limit e d a old m m2 out out' small placed es et h in
      (
        w,
        eq,
        ground arith,
        ground (arith, length-append out w, room_varlen e a m out out' es h),
        back,
      )
  field-Arrives _ _ e d _ _ m m2 out out' p wide placed es et h = ground arith

-- The target's memory after all values have arrived.
unfoldable pub deliver : List Plan.Decision → List Decision → Memory → Memory → Memory
deliver (e ∷ es) (d ∷ ds) m m2 =
    deliver es ds m (update m2 d.p (received e.type e (m e.address) (m2 d.p)))
deliver _ _ m m2 = m2

-- Every decision to encode has its partner, of at least one octet, and the objects are what they are
-- taken for when the value arrives.
abbrev pub AllPaired : List Plan.Decision → List Decision → Memory → Memory → Type 0
AllPaired [] [] m m2 = Unit {0}
AllPaired [] (d ∷ ds) m m2 = ⊥
AllPaired (e ∷ es) [] m m2 = ⊥
AllPaired (e ∷ es) (d ∷ ds) m m2 =
    Pair e.type d.type e d
    × IsWide d.type d
    × IsPlaced e.type e (m e.address) (m2 d.p)
    × AllPaired es ds m (update m2 d.p (received e.type e (m e.address) (m2 d.p)))

run_step :
    (c : Machine) (d : Decision) (ds : List Decision) (cur mid : List ℕ) (m m1 : Memory)
    (r : List ℕ × Memory)
    → 0 < length cur
    → transfer c d.type d cur m ≡ ok (mid, m1)
    → run c ds mid m1 ≡ ok r
    → run c (d ∷ ds) cur m ≡ ok r
unfolding run step
run_step c d ds cur mid m m1 r pos h k = rw (lt→ltb 0 (length cur) pos, h) k

module _ (c : Machine) (f : List ℕ → List ℕ) (limit : ℕ) (small : limit < 2 ^ 16) where
  run_round_trip :
      (es : List Plan.Decision) (ds : List Decision) (m m2 : Memory) (out out' : List ℕ)
      → length out ≤ limit
      → AllPaired es ds m m2
      → Execute.run f limit es m out ≡ ok out'
      → (w : List ℕ) × (out' ≡ out ++ w)
        × (length out' ≤ limit)
        × ((rest : List ℕ) → run c ds (w ++ rest) m2 ≡ ok (rest, deliver es ds m m2))
  unfolding Execute.run run step deliver
  run_round_trip [] [] m m2 out out' le p h =
      ([], ground (arith, append-nil out), ground arith, λ rest. refl)
  run_round_trip [] (d ∷ ds) m m2 out out' le p h = absurd p
  run_round_trip (e ∷ es) [] m m2 out out' le p h = absurd p
  run_round_trip (e ∷ es) (d ∷ ds) m m2 out out' le (pair, wide, placed, more) h =
      let (mid, h1, h2) = >>=-eq-ok (encode f limit e.type e m out) _ h in
      let (w, eq, pos, fits, back) =
        field-Arrives c f limit small e.type d.type e d (m e.address) (m2 d.p) m m2 out mid pair
          wide placed refl refl h1 in
      let (w', eq', fits', back') =
        run_round_trip es ds m (update m2 d.p (received e.type e (m e.address) (m2 d.p))) mid out'
          fits more h2 in
      (
        w ++ w',
        ground (arith, append_assoc out w w'),
        fits',
        λ rest. rw (append_assoc w w' rest) (
            run_step c d ds (w ++ (w' ++ rest)) (w' ++ rest) m2 _ _
              (omega (arith, length-append w (w' ++ rest))) (back (w' ++ rest)) (back' rest)),
      )

  -- Where an encode plan has written a record, a decode plan whose decisions are its partners reads the
  -- record back, whatever follows it: both count the same number of octets, and each value arrives at
  -- its place as `received` describes it.
  pub execute_round_trip :
      (es : List Plan.Decision) (ds : List Decision) (m m2 : Memory) (out out' : List ℕ) (n : ℕ)
      → AllPaired es ds m m2
      → Execute.execute f limit es m out ≡ ok (n, out')
      → (w : List ℕ) × (out' ≡ out ++ w)
        × (n ≡ length w)
        × ((rest : List ℕ) → execute c ds (w ++ rest) m2 ≡ ok (n, deliver es ds m m2))
  unfolding Execute.execute execute
  execute_round_trip es ds m m2 out out' n p h =
      let (room, h0, h1) = >>=-eq-ok (assert (ltb (length out) limit)) _ h in
      let (mid, h2, h3) = >>=-eq-ok (Execute.run f limit es m out) _ h1 in
      let (w, eq, fits, back) = run_round_trip es ds m m2 out mid (ground arith) p h2 in
      let same : n ≡ length w = ground (arith, length-append out w) in
      (
        w,
        ground arith,
        same,
        λ rest. rw (back rest) (ground (arith, length-append out w, length-append w rest)),
      )
