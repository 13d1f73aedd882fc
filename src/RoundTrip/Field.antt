-- ===== src/RoundTrip/Field.antt =====
-- One value, through EncodePlan::execute and DecodePlan::execute.
use Prim.Native.Nat.{min}
use mathlib.Core.List.{append-nil, append_assoc, reverse-reverse}
use libfc.Prelude.{
  ◌+◌, ℕ, zero, suc, ◌-◌, ◌^◌, ◌≤◌, ◌<◌, ◌≡◌, refl, ap, arith, List, [], ◌∷◌, ◌++◌, length,
  replicate, take, drop, ok, ◌==◌, if◌then◌else◌, length-drop, length-append, take-append,
  drop-append, length-replicate, reverse, length-take, length-reverse, ltb,
}
use libfc.Octets.{
  Memory, Cell, native, octets, copy_content, content, store, update, store_octets, BasicOctetArray,
}
use libfc.Encode.Plan
use libfc.Encode.Plan.{
  encode_none, encode_boolean, encode_fixlen, encode_fixlen_endianness, encode_fixlen_octets,
  encode_varlen, encode_double_as_float_endianness, encode_double_as_float,
}
use libfc.Encode.Execute.{varlen_prefix, encode, load, room, encode_truth, load_octets}
use libfc.Decode.Plan.{
  Decision, DecisionType, transfer_fixlen, transfer_boolean, transfer_fixlen_endianness,
  transfer_fixlen_octets, transfer_varlen, Machine,
}
use libfc.Decode.Execute.{
  decode_varlen_length, checked_length, transfer, transfer_boolean_step, decode_boolean,
}

-- A decision to encode and one to decode that stand for the same wire form.
abbrev pub Pair : Plan.DecisionType → DecisionType → Plan.Decision → Decision → Type 0
Pair encode_fixlen transfer_fixlen e d =
    (e.encoded_length ≡ d.length)
    × (e.unencoded_length ≡ d.destination_size)
    × (d.length ≤ d.destination_size)
Pair encode_fixlen_endianness transfer_fixlen_endianness e d =
    (e.encoded_length ≡ d.length)
    × (e.unencoded_length ≡ d.destination_size)
    × (d.length ≤ d.destination_size)
Pair encode_boolean transfer_boolean e d = Unit {0}
Pair encode_fixlen_octets transfer_fixlen_octets e d = e.encoded_length ≡ d.length
Pair encode_varlen transfer_varlen e d = Unit {0}
Pair _ _ e d = ⊥

-- The objects at the source and at the target are what the decision takes them for: native values of
-- its native size, or an octet array whose content lies in its storage.
abbrev pub IsPlaced : Plan.DecisionType → Plan.Decision → Cell → Cell → Type 0
IsPlaced encode_boolean e (native v) (native old) = (length v ≡ 1) × (length old ≡ 1)
IsPlaced encode_fixlen e (native v) (native old) =
    (length v ≡ e.unencoded_length) × (length old ≡ e.unencoded_length)
IsPlaced encode_fixlen_endianness e (native v) (native old) =
    (length v ≡ e.unencoded_length) × (length old ≡ e.unencoded_length)
IsPlaced encode_fixlen_octets e (octets a) (octets old) = a.length ≤ length a.buf
IsPlaced encode_varlen e (octets a) (octets old) = a.length ≤ length a.buf
IsPlaced _ e source target = ⊥

-- The value that arrives. A native value keeps its `encoded_length` low octets, which stand first
-- where the order is little-endian and last where it is big-endian, and is 0 elsewhere; a truth
-- value becomes 0 or 1; an octet array of fixed length is cut or padded with 0.
abbrev pub received : Plan.DecisionType → Plan.Decision → Cell → Cell → Cell
received encode_boolean e (native v) target =
    native (elim v [ [] ↦ 0 ∷ [] | b ∷ r ↦ (if b == 0 then 0 else 1) ∷ [] ])
received encode_fixlen e (native v) target = native (
    replicate (e.unencoded_length - e.encoded_length) 0
    ++ drop (e.unencoded_length - e.encoded_length) v)
received encode_fixlen_endianness e (native v) target =
    native (take e.encoded_length v ++ replicate (e.unencoded_length - e.encoded_length) 0)
received encode_fixlen_octets e (octets a) (octets old) = octets (
    copy_content old (
      take (min a.length e.encoded_length) a.buf
      ++ replicate (e.encoded_length - min a.length e.encoded_length) 0))
received encode_varlen e (octets a) (octets old) = octets (copy_content old (content a))
received _ e source target = target

drop_all : (n : ℕ) (xs : List ℕ) → length xs ≤ n → drop n xs ≡ []
drop_all zero [] h = refl
drop_all zero (x ∷ xs) h = absurd (omega arith)
drop_all (suc n) [] h = refl
drop_all (suc n) (x ∷ xs) h = drop_all n xs (omega arith)

pub take_all : (n : ℕ) (xs : List ℕ) → length xs ≤ n → take n xs ≡ xs
take_all zero [] h = refl
take_all zero (x ∷ xs) h = absurd (omega arith)
take_all (suc n) [] h = refl
take_all (suc n) (x ∷ xs) h = ap (◌∷◌ x) (take_all n xs (omega arith))

-- A write of a whole object.
pub store_whole :
    (m : Memory) (p : ℕ) (old bytes : List ℕ)
    → m p ≡ native old
    → length bytes ≡ length old
    → store m p bytes ≡ ok (update m p (native bytes))
unfolding store
store_whole m p old bytes e h = ground (arith, drop_all (length bytes) old, append-nil bytes)

-- The length prefix is read back, before any content.
pub decode_varlen_length-varlen_prefix :
    (n : ℕ) (rest : List ℕ)
    → n < 2 ^ 16
    → n ≤ length rest
    → decode_varlen_length (varlen_prefix n ++ rest) ≡ ok (n, rest)
unfolding decode_varlen_length varlen_prefix checked_length
decode_varlen_length-varlen_prefix n [] h k = ground arith
decode_varlen_length-varlen_prefix n (a ∷ []) h k = ground arith
decode_varlen_length-varlen_prefix n (a ∷ b ∷ rest) h k = ground arith

module _ (c : Machine) (f : List ℕ → List ℕ) (limit : ℕ) where
  pub straight :
      (e : Plan.Decision) (d : Decision) (v old : List ℕ) (m m2 : Memory) (out out' : List ℕ)
      → Pair encode_fixlen transfer_fixlen e d
      → length v ≡ e.unencoded_length
      → length old ≡ e.unencoded_length
      → m e.address ≡ native v
      → m2 d.p ≡ native old
      → encode f limit encode_fixlen e m out ≡ ok out'
      → (w : List ℕ) × (out' ≡ out ++ w)
        × (length w ≡ d.length)
        × ((rest : List ℕ)
            → transfer c transfer_fixlen d (w ++ rest) m2
              ≡ ok (
                rest,
                update m2 d.p (
                    native (
                      replicate (e.unencoded_length - e.encoded_length) 0
                      ++ drop (e.unencoded_length - e.encoded_length) v)),
              ))
  unfolding encode load room transfer
  straight e d v old m m2 out out' (p1, p2, p3) lv lo ev eo h =
      let w : List ℕ = drop (e.unencoded_length - e.encoded_length) v in
      let k = e.unencoded_length - e.encoded_length in
      (
        w,
        ground (arith, length-drop k v, take_all e.encoded_length w),
        ground (arith, length-drop k v),
        λ rest. ground (
          arith,
          length-drop k v,
          length-append w rest,
          take-append d.length w rest,
          drop-append d.length w rest,
          length-append (replicate k 0) w,
          length-replicate {A = ℕ} k 0,
          store_whole m2 d.p old (replicate k 0 ++ w),
        ),
      )

  pub swapped :
      (e : Plan.Decision) (d : Decision) (v old : List ℕ) (m m2 : Memory) (out out' : List ℕ)
      → Pair encode_fixlen_endianness transfer_fixlen_endianness e d
      → length v ≡ e.unencoded_length
      → length old ≡ e.unencoded_length
      → m e.address ≡ native v
      → m2 d.p ≡ native old
      → encode f limit encode_fixlen_endianness e m out ≡ ok out'
      → (w : List ℕ) × (out' ≡ out ++ w)
        × (length w ≡ d.length)
        × ((rest : List ℕ)
            → transfer c transfer_fixlen_endianness d (w ++ rest) m2
              ≡ ok (
                rest,
                update m2 d.p (
                    native (
                      take e.encoded_length v
                      ++ replicate (e.unencoded_length - e.encoded_length) 0)),
              ))
  unfolding encode load room transfer
  swapped e d v old m m2 out out' (p1, p2, p3) lv lo ev eo h =
      let low : List ℕ = take e.encoded_length v in
      let w : List ℕ = reverse low in
      let k = e.unencoded_length - e.encoded_length in
      (
        w,
        ground arith,
        ground (arith, length-take e.encoded_length v, length-reverse low),
        λ rest. ground (
          arith,
          length-take e.encoded_length v,
          length-reverse low,
          reverse-reverse low,
          length-append w rest,
          take-append d.length w rest,
          drop-append d.length w rest,
          length-append low (replicate k 0),
          length-replicate {A = ℕ} k 0,
          store_whole m2 d.p old (low ++ replicate k 0),
        ),
      )

  pub truth :
      (e : Plan.Decision) (d : Decision) (b o : ℕ) (m m2 : Memory) (out out' : List ℕ)
      → m e.address ≡ native (b ∷ [])
      → m2 d.p ≡ native (o ∷ [])
      → encode f limit encode_boolean e m out ≡ ok out'
      → (w : List ℕ) × (out' ≡ out ++ w)
        × (length w ≡ 1)
        × ((rest : List ℕ)
            → transfer c transfer_boolean d (w ++ rest) m2
              ≡ ok (rest, update m2 d.p (native ((if b == 0 then 0 else 1) ∷ []))))
  unfolding encode load room transfer encode_truth transfer_boolean_step decode_boolean store
  truth e d b o m m2 out out' ev eo h =
      ((if b == 0 then 2 else 1) ∷ [], ground arith, ground arith, λ rest. ground arith)

  pub fixed_octets :
      (e : Plan.Decision) (d : Decision) (a old : BasicOctetArray) (m m2 : Memory)
      (out out' : List ℕ)
      → e.encoded_length ≡ d.length
      → a.length ≤ length a.buf
      → m e.address ≡ octets a
      → m2 d.p ≡ octets old
      → encode f limit encode_fixlen_octets e m out ≡ ok out'
      → (w : List ℕ) × (out' ≡ out ++ w)
        × (length w ≡ d.length)
        × ((rest : List ℕ)
            → transfer c transfer_fixlen_octets d (w ++ rest) m2
              ≡ ok (
                rest,
                update m2 d.p (
                    octets (
                      copy_content old (
                        take (min a.length e.encoded_length) a.buf
                        ++ replicate (e.encoded_length - min a.length e.encoded_length) 0))),
              ))
  unfolding encode load_octets room transfer store_octets
  fixed_octets e d a old m m2 out out' el va ev eo h =
      let n = min a.length e.encoded_length in
      let head : List ℕ = take n a.buf in
      let w : List ℕ = head ++ replicate (e.encoded_length - n) 0 in
      let size : length w ≡ d.length = omega (
        arith,
        length-take n a.buf (omega arith),
        length-append head (replicate (e.encoded_length - n) 0),
        length-replicate {A = ℕ} (e.encoded_length - n) 0,
      ) in
      (
        w,
        ground arith,
        size,
        λ rest.
            ground (
              arith,
              length-append w rest,
              take-append d.length w rest,
              drop-append d.length w rest,
            ),
      )

  pub varlen :
      (e : Plan.Decision) (d : Decision) (a old : BasicOctetArray) (m m2 : Memory)
      (out out' : List ℕ)
      → limit < 2 ^ 16
      → a.length ≤ length a.buf
      → m e.address ≡ octets a
      → m2 d.p ≡ octets old
      → encode f limit encode_varlen e m out ≡ ok out'
      → (w : List ℕ) × (out' ≡ out ++ w)
        × (length w ≡ a.length + (if ltb a.length 255 then 1 else 3))
        × ((rest : List ℕ)
            → transfer c transfer_varlen d (w ++ rest) m2
              ≡ ok (rest, update m2 d.p (octets (copy_content old (content a)))))
  unfolding encode load_octets room transfer store_octets
  varlen e d a old m m2 out out' small va ev eo h =
      let body : List ℕ = take a.length a.buf in
      let size = length-take a.length a.buf va in
      let short : a.length < 2 ^ 16 = ground arith in
      (
        varlen_prefix a.length ++ body,
        ground arith,
        unfold varlen_prefix in ground (arith, length-append (varlen_prefix a.length) body),
        λ rest. ground (
          arith,
          append_assoc (varlen_prefix a.length) body rest,
          length-append body rest,
          decode_varlen_length-varlen_prefix a.length (body ++ rest),
          take-append a.length body rest,
          drop-append a.length body rest,
        ),
      )
