-- ===== src/Stat/Printed.antt =====
-- P-lines as they are written, which lib/StatParser.cpp reads.
use libfc.Prelude.{
  ◌==◌, ◌*◌, ◌-◌, ℕ, ◌+◌, ◌≡◌, ◌≤◌, ap, ◌∙◌, arith, refl, true, false, List, [], ◌∷◌, some, le→leb,
  Bool-cases, inl, inr,
}
use libfc.Info.Decimal.{
  is_digit, is_space, read_digits, print_number, print_number_starts, Stops,
  read_digits-print_number,
}
use libfc.Stat.Line.{
  Packet, skip_digits, skip_spaces, expect, expect_gap, parse_digits, parse_uint16, parse_uint8,
  take_delim, skip_time, parse_address, parse_p,
}
use libfc.Stat.Numbers.{parse_digits-read_digits}

-- The line behind its `P`, for a packet with a number and a relative time in seconds and a fraction.
unfoldable pub print_address : ℕ × ℕ × ℕ × ℕ → ℕ → List ℕ
print_address (a, b, c, d) port = print_number a (
    b'.'
    ∷ print_number b (b'.' ∷ print_number c (b'.' ∷ print_number d (b':' ∷ print_number port []))))

unfoldable pub print_p : ℕ → ℕ → ℕ → Packet → List ℕ
print_p number seconds fraction p =
    b' '
    ∷ print_number number (
        b' '
        ∷ print_number seconds (
            b'.'
            ∷ print_number fraction
                (b' ' ∷ print_number p.length (b' ' ∷ print_address p.source_address p.port))))

-- The numbers fit the types of the results.
pub record IsPacket (p : Packet) : Type 0 where
  pub length_small : p.length ≤ 65535
  pub first_small : p.source_address.0 ≤ 255
  pub second_small : p.source_address.1 ≤ 255
  pub third_small : p.source_address.2 ≤ 255
  pub fourth_small : p.source_address.3 ≤ 255
  pub port_small : p.port ≤ 65535

skip_digits-read_digits : (acc : ℕ) (text : List ℕ) → skip_digits text ≡ (read_digits acc text).1
unfolding skip_digits read_digits
skip_digits-read_digits acc [] = refl
skip_digits-read_digits acc (c ∷ cs) = elim (Bool-cases (is_digit c)) [
  | inl e ↦ rw (e, skip_digits, read_digits) (skip_digits-read_digits (acc * 10 + (c - b'0')) cs)
  | inr e ↦ rw (e, skip_digits, read_digits) refl
]

skip_digits-print_number :
    (n : ℕ) (rest : List ℕ) → Stops rest → skip_digits (print_number n rest) ≡ rest
skip_digits-print_number n rest stop =
    skip_digits-read_digits 0 (print_number n rest)
    ∙ ap (λ r. r.1) (read_digits-print_number n rest stop)

expect_digit :
    (n : ℕ) (rest : List ℕ) → expect is_digit (print_number n rest) ≡ some (print_number n rest)
unfolding expect
expect_digit n rest =
    let (d, ds, starts, digit) = print_number_starts n rest in rw (starts, digit, expect) refl

digit_no_space : (d : ℕ) → is_digit d ≡ true → is_space d ≡ false
unfolding is_digit is_space
digit_no_space d h = ground arith

skip_spaces-print_number :
    (n : ℕ) (rest : List ℕ) → skip_spaces (b' ' ∷ print_number n rest) ≡ print_number n rest
unfolding skip_spaces is_space
skip_spaces-print_number n rest =
    let (d, ds, starts, digit) = print_number_starts n rest in
    rw (starts, digit_no_space d digit, skip_spaces) refl

expect_gap-print_number :
    (n : ℕ) (rest : List ℕ) → expect_gap (b' ' ∷ print_number n rest) ≡ some (print_number n rest)
unfolding expect_gap expect is_space
expect_gap-print_number n rest =
    ap (expect is_digit) (skip_spaces-print_number n rest) ∙ expect_digit n rest

parse_digits-print_number :
    (max n : ℕ) (rest : List ℕ)
    → 9 ≤ max
    → n ≤ max
    → Stops rest
    → parse_digits max 0 (print_number n rest) ≡ some (n, rest)
parse_digits-print_number max n rest k l stop =
    parse_digits-read_digits max 0 (print_number n rest) k (omega arith)
    ∙ rw (read_digits-print_number n rest stop, le→leb n max l) refl

parse_uint8-print_number :
    (delim n : ℕ) (rest : List ℕ)
    → is_digit delim ≡ false
    → (delim == delim) ≡ true
    → n ≤ 255
    → parse_uint8 delim (print_number n (delim ∷ rest)) ≡ some (n, rest)
unfolding parse_uint8 take_delim
parse_uint8-print_number delim n rest stop same l =
    rw (parse_digits-print_number 255 n (delim ∷ rest) (omega arith) l stop, same, parse_uint8) refl

skip_time-print :
    (number seconds fraction n : ℕ) (rest : List ℕ)
    → skip_time (
        b' '
        ∷ print_number number (
            b' '
            ∷ print_number seconds (b'.' ∷ print_number fraction (b' ' ∷ print_number n rest))))
      ≡ some (print_number n rest)
unfolding skip_time is_digit expect
skip_time-print number seconds fraction n rest =
    let last = b' ' ∷ print_number n rest in
    let middle = b'.' ∷ print_number fraction last in
    let first = b' ' ∷ print_number seconds middle in
    rw
      (
        skip_spaces-print_number number first,
        expect_digit number first,
        skip_digits-print_number number first refl,
        expect_gap-print_number seconds middle,
        skip_digits-print_number seconds middle refl,
        skip_digits-print_number fraction last refl,
        expect_gap-print_number n rest,
        skip_time,
      )
      refl

parse_address-print_address :
    (p : Packet)
    → IsPacket p
    → parse_address p.length (print_address p.source_address p.port) ≡ some p
unfolding parse_address print_address parse_uint16 skip_spaces is_digit
parse_address-print_address p v =
    let (a, b, c, d) = p.source_address in
    let text4 = print_number p.port [] in
    let text3 = print_number d (b':' ∷ text4) in
    let text2 = print_number c (b'.' ∷ text3) in
    let text1 = print_number b (b'.' ∷ text2) in
    rw
      (
        parse_uint8-print_number b'.' a text1 refl refl v.first_small,
        parse_uint8-print_number b'.' b text2 refl refl v.second_small,
        parse_uint8-print_number b'.' c text3 refl refl v.third_small,
        parse_uint8-print_number b':' d text4 refl refl v.fourth_small,
        parse_digits-print_number 65535 p.port [] (omega arith) v.port_small tt,
        parse_address,
      )
      refl

gap :
    (address : ℕ × ℕ × ℕ × ℕ) (port : ℕ)
    → expect_gap (b' ' ∷ print_address address port) ≡ some (print_address address port)
unfolding print_address
gap (a, b, c, d) port = expect_gap-print_number a _

-- A P-line that is written for a packet, with any packet number and time, is read as that packet.
pub parse_p-print_p :
    (number seconds fraction : ℕ) (p : Packet)
    → IsPacket p
    → parse_p (print_p number seconds fraction p) ≡ some p
unfolding parse_p print_p parse_uint16 is_digit
parse_p-print_p number seconds fraction p v =
    let address = print_address p.source_address p.port in
    let time = skip_time-print number seconds fraction p.length (b' ' ∷ address) in
    let size =
      parse_digits-print_number 65535 p.length (b' ' ∷ address) (omega arith) v.length_small refl in
    rw (time, size, gap p.source_address p.port, parse_p) (parse_address-print_address p v)
