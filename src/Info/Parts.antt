-- ===== src/Info/Parts.antt =====
-- The parts of a specification that InfoElement::toIESpec prints, as parseIESpec_Initial reads them.
use libfc.Prelude.{
  not, ℕ, ◌^◌, ◌≡◌, ◌≤◌, ◌<◌, ◌⊎◌, refl, true, false, arith, List, [], ◌∷◌, ◌++◌, ok, ◌==◌,
  if◌then◌else◌, Bool-cases, inl, inr, span, ap, sym, span-append, Free, length, ◌+◌,
}
use libfc.Info.Types.{
  IeType, octet_array, unsigned8, unsigned16, unsigned32, unsigned64, signed8, signed16, signed32,
  signed64, float32, float64, boolean, mac_address, string, date_time_seconds,
  date_time_milliseconds, date_time_microseconds, date_time_nanoseconds, ipv4_address, ipv6_address,
  unknown,
}
use libfc.Info.Names.{type_name}
use libfc.Info.Decimal.{
  print_number, read_number-print_number, is_digit, print_number_starts, print_number-Free,
  print_number_append, print_number_longer,
}
use libfc.Info.Spec.{
  Spec, parse_until, close_part, match_char, parse_length, parse_length_part, parse_type_part,
  parse_num_pen, parse_name_part, parse_number_part, bracketed_length, length_of, opens,
}

-- No name of a type has a closing bracket.
parse_until-type_name :
    (t : IeType) (rest : List ℕ)
    → parse_until b'>' (type_name t ++ (b'>' ∷ rest)) ≡ ok (type_name t, rest)
unfolding parse_until close_part span type_name match_char
parse_until-type_name octet_array rest = refl
parse_until-type_name unsigned8 rest = refl
parse_until-type_name unsigned16 rest = refl
parse_until-type_name unsigned32 rest = refl
parse_until-type_name unsigned64 rest = refl
parse_until-type_name signed8 rest = refl
parse_until-type_name signed16 rest = refl
parse_until-type_name signed32 rest = refl
parse_until-type_name signed64 rest = refl
parse_until-type_name float32 rest = refl
parse_until-type_name float64 rest = refl
parse_until-type_name boolean rest = refl
parse_until-type_name mac_address rest = refl
parse_until-type_name string rest = refl
parse_until-type_name date_time_seconds rest = refl
parse_until-type_name date_time_milliseconds rest = refl
parse_until-type_name date_time_microseconds rest = refl
parse_until-type_name date_time_nanoseconds rest = refl
parse_until-type_name ipv4_address rest = refl
parse_until-type_name ipv6_address rest = refl
parse_until-type_name unknown rest = refl

-- The length in brackets is one that the parser takes.
abbrev pub IsSpecLen : ℕ → Type 0
IsSpecLen len = (len ≤ 65515) ⊎ (len ≡ 65535)

length_of-print_number : (len : ℕ) → IsSpecLen len → length_of (print_number len []) ≡ ok len
unfolding length_of is_digit
length_of-print_number len l =
    let small : len < 2 ^ 64 = ground arith in
    let read = read_number-print_number 64 len [] small tt in rw (read, length_of) (ground arith)

bracketed_length-print_number :
    (len : ℕ) → IsSpecLen len → bracketed_length (print_number len []) ≡ ok len
unfolding bracketed_length is_digit
bracketed_length-print_number len l =
    let (d, ds, starts, digit) = print_number_starts len [] in
    let plain : (d == b'v') ≡ false = ground arith in
    rw (starts, plain, bracketed_length) (rw (sym starts) (length_of-print_number len l))

digit_no_bracket : (d : ℕ) → is_digit d ≡ true → (d == b']') ≡ false
unfolding is_digit
digit_no_bracket d h = ground arith

parse_length-print_number :
    (len : ℕ) → IsSpecLen len → parse_length (print_number len (b']' ∷ [])) ≡ ok (len, b']' ∷ [])
unfolding parse_length is_digit
parse_length-print_number len l =
    let free = print_number-Free (λ c. c == b']') digit_no_bracket len in
    let whole = print_number_append len (b']' ∷ []) in
    let parted = span-append (λ c. c == b']') (print_number len []) b']' [] free refl in
    rw (whole, parted, bracketed_length-print_number len l, parse_length) refl

pub parse_length_part-print_number :
    (s : Spec) (len : ℕ)
    → s.len_set ≡ false
    → IsSpecLen len
    → parse_length_part s (print_number len (b']' ∷ []))
      ≡ ok (record s { len = len; len_set = true }, [])
unfolding parse_length_part match_char
parse_length_part-print_number s len e l =
    rw (e, parse_length-print_number len l, parse_length_part) refl

pub parse_type_part-type_name :
    (s : Spec) (t : IeType) (rest : List ℕ)
    → s.type_set ≡ false
    → parse_type_part s (type_name t ++ (b'>' ∷ rest))
      ≡ ok (record s { type_text = type_name t; type_set = true }, rest)
unfolding parse_type_part
parse_type_part-type_name s t rest e = rw (e, parse_until-type_name t rest, parse_type_part) refl

-- What stands between the parentheses.
abbrev pub print_num_pen : ℕ → ℕ → List ℕ → List ℕ
print_num_pen pen number rest =
    if pen == 0
    then print_number number (b')' ∷ rest)
    else print_number pen (b'/' ∷ print_number number (b')' ∷ rest))

parse_num_pen-print :
    (pen number : ℕ) (rest : List ℕ)
    → pen < 2 ^ 32
    → number < 2 ^ 32
    → parse_num_pen (
        if pen == 0
        then print_number number (b')' ∷ rest)
        else print_number pen (b'/' ∷ print_number number (b')' ∷ rest)))
      ≡ ok (number, pen, b')' ∷ rest)
unfolding parse_num_pen is_digit
parse_num_pen-print pen number rest p n = elim (Bool-cases (pen == 0)) [
  | inl e ↦
      let first = read_number-print_number 32 number (b')' ∷ rest) n refl in
      rw (e, first, parse_num_pen) (ap (λ k. ok (number, k, b')' ∷ rest)) (ground arith))
  | inr e ↦
      let second = read_number-print_number 32 number (b')' ∷ rest) n refl in
      let first =
        read_number-print_number 32 pen (b'/' ∷ print_number number (b')' ∷ rest)) p refl in
      rw (e, first, second, parse_num_pen) refl
]

pub print_num_pen_longer :
    (pen number : ℕ) (rest : List ℕ) → length rest + 2 ≤ length (print_num_pen pen number rest)
print_num_pen_longer pen number rest =
    let tail = print_number_longer number (b')' ∷ rest) in
    elim (Bool-cases (pen == 0)) [
      | inl e ↦ rw e (omega arith)
      | inr e ↦
          let head = print_number_longer pen (b'/' ∷ print_number number (b')' ∷ rest)) in
          rw e (omega arith)
    ]

pub parse_number_part-print :
    (s : Spec) (pen number : ℕ) (rest : List ℕ)
    → s.number_set ≡ false
    → s.pen_set ≡ false
    → pen < 2 ^ 32
    → number < 2 ^ 32
    → parse_number_part s (print_num_pen pen number rest)
      ≡ ok (
        record s { number = number; pen = pen; number_set = true; pen_set = not (pen == 0) },
        rest,
      )
unfolding parse_number_part match_char
parse_number_part-print s pen number rest e e' p n =
    rw (e', e, parse_num_pen-print pen number rest p n, parse_number_part) refl

-- A name that has no opening bracket, before one.
pub parse_name_part-Free :
    (s : Spec) (c d : ℕ) (cs rest : List ℕ)
    → s.name_set ≡ false
    → Free opens cs
    → opens d ≡ true
    → parse_name_part s c (cs ++ (d ∷ rest))
      ≡ ok (record s { name = c ∷ cs; name_set = true }, d ∷ rest)
unfolding parse_name_part
parse_name_part-Free s c d cs rest e f h =
    rw (e, span-append opens cs d rest f h, parse_name_part) refl
