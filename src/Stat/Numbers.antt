-- ===== src/Stat/Numbers.antt =====
-- The checks of StatParser::parse_uint16 and StatParser::parse_uint8 against overflow.
use libfc.Prelude.{
  ◌∙◌, ◌<◌, le→leb, ℕ, ◌+◌, ◌-◌, ◌*◌, ◌/◌, ◌≡◌, ◌≤◌, arith, refl, true, false, List, [], ◌∷◌, none,
  some, ltb, leb, if◌then◌else◌, Bool-cases, inl, inr,
}
use libfc.Info.Decimal.{is_digit, read_digits}
use libfc.Stat.Line.{parse_digits}

read_digits_grows : (acc : ℕ) (text : List ℕ) → acc ≤ (read_digits acc text).0
unfolding read_digits
read_digits_grows acc [] = omega arith
read_digits_grows acc (c ∷ cs) = ground (arith, read_digits_grows (acc * 10 + (c - b'0')) cs)

digit_fits :
    (max val d : ℕ) → 9 ≤ max → d ≤ 9 → ltb ((max - d) / 10) val ≡ false → 10 * val + d ≤ max
digit_fits max val d n l h = ground arith

digit_overflows :
    (max val d : ℕ) → d ≤ 9 → d ≤ max → ltb ((max - d) / 10) val ≡ true → max < val * 10 + d
digit_overflows max val d l n h = ground arith

digit_value : (c : ℕ) → is_digit c ≡ true → c - b'0' ≤ 9
unfolding is_digit
digit_value c h = ground arith

-- The loop that tests each digit before it takes it accepts the numbers that fit, with the value and
-- the rest of the line that the digits without any test have, and no others.
pub parse_digits-read_digits :
    (max val : ℕ) (text : List ℕ)
    → 9 ≤ max
    → val ≤ max
    → parse_digits max val text
      ≡ (if leb (read_digits val text).0 max then some (read_digits val text) else none)
unfolding parse_digits read_digits
parse_digits-read_digits max val [] n l = ground arith
parse_digits-read_digits max val (c ∷ cs) n l = elim (Bool-cases (is_digit c)) [
  | inr e ↦ rw (e, parse_digits, read_digits, le→leb val max l) refl
  | inl e ↦
      let d = c - b'0' in
      let small = digit_value c e in
      elim (Bool-cases (ltb ((max - d) / 10) val)) [
        | inl k ↦
            let over : leb (read_digits (val * 10 + d) cs).0 max ≡ false =
              grind (arith, read_digits_grows, digit_overflows max val d small) in
            rw (e, k, parse_digits, read_digits, over) refl
        | inr k ↦
            let fits = digit_fits max val d n small k in
            let same : 10 * val + d ≡ val * 10 + d = omega arith in
            let ih = parse_digits-read_digits max (10 * val + d) cs n fits in
            rw (e, k, parse_digits, read_digits) (ih ∙ rw same refl)
      ]
]
