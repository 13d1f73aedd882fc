-- ===== src/Decode/Safety.antt =====
-- A plan that is executed on objects of the right types has no undefined behaviour.
use libfc.Prelude.{
  ℕ, ◌-◌, ◌≡◌, ◌≢◌, arith, List, [], ◌∷◌, ◌++◌, length, length-append, length-replicate,
  length-reverse, length-take, replicate, reverse, take, ok, undefined, >>=-eq-ok, bind_defined,
  All, Option,
}
use libfc.Octets.{Memory}
use libfc.Octets.Typing.{
  shape, IsNative, IsOctets, shape-store, shape-store_octets, store_defined, store_octets_defined,
}
use libfc.Decode.Plan.{
  Machine, Decision, DecisionType, skip_fixlen, skip_varlen, transfer_fixlen, transfer_boolean,
  transfer_fixlen_endianness, transfer_fixlen_octets, transfer_float_into_double,
  transfer_float_into_double_endianness, transfer_varlen,
}
use libfc.Decode.Execute.{
  decode_varlen_length, checked_length, decode_boolean, transfer_boolean_step, transfer, step, run,
}

-- The object that a decision writes has the type that it is written as.
abbrev pub Fits : DecisionType → Decision → Option ℕ → Type 0
Fits skip_fixlen d s = Unit {0}
Fits skip_varlen d s = Unit {0}
Fits transfer_fixlen d s = IsNative d.destination_size s
Fits transfer_boolean d s = IsNative 1 s
Fits transfer_fixlen_endianness d s = IsNative d.destination_size s
Fits transfer_fixlen_octets d s = IsOctets s
Fits transfer_float_into_double d s = IsNative 8 s
Fits transfer_float_into_double_endianness d s = IsNative 8 s
Fits transfer_varlen d s = IsOctets s

abbrev pub AllFit : List Decision → Memory → Type 0
AllFit ds m = All (λ d. Fits d.type d (shape (m d.p))) ds

-- The conversion of a `float` gives the eight octets of a `double`.
abbrev pub IsWidening : (List ℕ → List ℕ) → Type 0
IsWidening f = (bytes : List ℕ) → length bytes ≡ 4 → length (f bytes) ≡ 8

decode_varlen_length_defined : (cur : List ℕ) → decode_varlen_length cur ≢ undefined
unfolding decode_varlen_length checked_length
decode_varlen_length_defined [] h = cc
decode_varlen_length_defined (b ∷ []) h = ground arith
decode_varlen_length_defined (b ∷ hi ∷ []) h = ground arith
decode_varlen_length_defined (b ∷ hi ∷ lo ∷ r) h = ground arith

transfer_boolean_step_defined :
    (p : ℕ) (cur : List ℕ) (m : Memory)
    → IsNative 1 (shape (m p))
    → transfer_boolean_step p cur m ≢ undefined
unfolding transfer_boolean_step decode_boolean
transfer_boolean_step_defined p [] m h = λ e. cc
transfer_boolean_step_defined p (b ∷ r) m h =
    ground (arith, store_defined m p (1 ∷ []), store_defined m p (0 ∷ []))

shape-transfer_boolean_step :
    (p : ℕ) (cur : List ℕ) (m : Memory) (rest : List ℕ) (m' : Memory) (q : ℕ)
    → transfer_boolean_step p cur m ≡ ok (rest, m')
    → shape (m' q) ≡ shape (m q)
unfolding transfer_boolean_step decode_boolean
shape-transfer_boolean_step p [] m rest m' q h = cc
shape-transfer_boolean_step p (b ∷ r) m rest m' q h =
    ground (arith, shape-store m p (1 ∷ []) m' q, shape-store m p (0 ∷ []) m' q)

module _ (c : Machine) where
  transfer_defined :
      (t : DecisionType) (d : Decision) (cur : List ℕ) (m : Memory)
      → IsWidening c.float_to_double
      → Fits t d (shape (m d.p))
      → transfer c t d cur m ≢ undefined
  unfolding transfer
  transfer_defined skip_fixlen d cur m w h = ground arith
  transfer_defined skip_varlen d cur m w h = ground (arith, decode_varlen_length_defined cur)
  transfer_defined transfer_boolean d cur m w h = transfer_boolean_step_defined d.p cur m h
  transfer_defined transfer_fixlen d cur m w h =
      let v : List ℕ = replicate (d.destination_size - d.length) 0 ++ take d.length cur in
      ground (
        arith,
        store_defined m d.p v,
        length-append (replicate (d.destination_size - d.length) 0) (take d.length cur),
        length-replicate {A = ℕ} (d.destination_size - d.length) 0,
        length-take d.length cur,
      )
  transfer_defined transfer_fixlen_endianness d cur m w h =
      let v : List ℕ = reverse (take d.length cur) ++ replicate (d.destination_size - d.length) 0 in
      ground (
        arith,
        store_defined m d.p v,
        length-append (reverse (take d.length cur)) (replicate (d.destination_size - d.length) 0),
        length-replicate {A = ℕ} (d.destination_size - d.length) 0,
        length-reverse (take d.length cur),
        length-take d.length cur,
      )
  transfer_defined transfer_fixlen_octets d cur m w h =
      ground (arith, store_octets_defined m d.p (take d.length cur))
  transfer_defined transfer_float_into_double d cur m w h = ground (
    arith,
    store_defined m d.p (c.float_to_double (take 4 cur)),
    w (take 4 cur),
    length-take 4 cur,
  )
  transfer_defined transfer_float_into_double_endianness d cur m w h = ground (
    arith,
    store_defined m d.p (c.float_to_double (reverse (take 4 cur))),
    w (reverse (take 4 cur)),
    length-reverse (take 4 cur),
    length-take 4 cur,
  )
  transfer_defined transfer_varlen d cur m w h =
      bind_defined (decode_varlen_length cur) _ (decode_varlen_length_defined cur)
        λ q e. ground (arith, store_octets_defined m d.p (take q.0 q.1))

  shape-transfer :
      (t : DecisionType) (d : Decision) (cur : List ℕ) (m : Memory) (rest : List ℕ) (m' : Memory)
      (q : ℕ)
      → transfer c t d cur m ≡ ok (rest, m')
      → shape (m' q) ≡ shape (m q)
  unfolding transfer
  shape-transfer skip_fixlen d cur m rest m' q h = ground arith
  shape-transfer skip_varlen d cur m rest m' q h = ground arith
  shape-transfer transfer_boolean d cur m rest m' q h =
      shape-transfer_boolean_step d.p cur m rest m' q h
  shape-transfer transfer_fixlen d cur m rest m' q h =
      let v : List ℕ = replicate (d.destination_size - d.length) 0 ++ take d.length cur in
      ground (arith, shape-store m d.p v m' q)
  shape-transfer transfer_fixlen_endianness d cur m rest m' q h =
      let v : List ℕ = reverse (take d.length cur) ++ replicate (d.destination_size - d.length) 0 in
      ground (arith, shape-store m d.p v m' q)
  shape-transfer transfer_fixlen_octets d cur m rest m' q h =
      ground (arith, shape-store_octets m d.p (take d.length cur) m' q)
  shape-transfer transfer_float_into_double d cur m rest m' q h =
      ground (arith, shape-store m d.p (c.float_to_double (take 4 cur)) m' q)
  shape-transfer transfer_float_into_double_endianness d cur m rest m' q h =
      ground (arith, shape-store m d.p (c.float_to_double (reverse (take 4 cur))) m' q)
  shape-transfer transfer_varlen d cur m rest m' q h =
      let (r, e, k) = >>=-eq-ok (decode_varlen_length cur) _ h in
      ground (arith, shape-store_octets m d.p (take r.0 r.1) m' q)

  shape-step :
      (d : Decision) (cur : List ℕ) (m : Memory) (rest : List ℕ) (m' : Memory) (q : ℕ)
      → step c d cur m ≡ ok (rest, m')
      → shape (m' q) ≡ shape (m q)
  unfolding step
  shape-step d cur m rest m' q h = ground (arith, shape-transfer d.type d cur m rest m' q)

  AllFit-mono :
      (ds : List Decision) (m m' : Memory)
      → ((q : ℕ) → shape (m' q) ≡ shape (m q))
      → AllFit ds m
      → AllFit ds m'
  AllFit-mono [] m m' e h = tt
  AllFit-mono (d ∷ ds) m m' e h = (rw (e d.p) h.0, AllFit-mono ds m m' e h.1)

  -- A run that stays among objects of the right types is defined.
  pub run_defined :
      (ds : List Decision) (cur : List ℕ) (m : Memory)
      → IsWidening c.float_to_double
      → AllFit ds m
      → run c ds cur m ≢ undefined
  unfolding run step
  run_defined [] cur m w h = λ e. cc
  run_defined (d ∷ ds) cur m w h =
      bind_defined (step c d cur m) _ (ground (arith, transfer_defined d.type d cur m w h.0)) λ q e.
        run_defined ds q.0 q.1 w (AllFit-mono ds m q.1 (λ a. shape-step d cur m q.0 q.1 a e) h.1)
