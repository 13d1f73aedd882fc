-- ===== src/Stat/Line.antt =====
-- lib/StatParser.cpp: what StatParser::next_p does with one line.
use libfc.Prelude.{
  ℕ, ◌+◌, ◌-◌, ◌*◌, ◌/◌, Bool, true, false, List, [], ◌∷◌, Option, none, some, ltb, ◌==◌,
  if◌then◌else◌,
}
use libfc.Info.Decimal.{is_digit, is_space}

-- A failed part ends the line.
infixl 5 ◌>>=◌
abbrev pub ◌>>=◌ {ℓ κ} : {A : Type ℓ} {B : Type κ} → Option A → (A → Option B) → Option B
none >>= next = none
some value >>= next = next value

-- The results of a P-line: the octets of the address are in network byte order.
pub record Packet : Type 0 where
  pub length : ℕ
  pub source_address : ℕ × ℕ × ℕ × ℕ
  pub port : ℕ

-- The loops `while (i < line.length () && is...(line[i])) i++`, on the part of the line from `i`.
unfoldable pub skip_digits : List ℕ → List ℕ
skip_digits [] = []
skip_digits (c ∷ cs) = elim (is_digit c) [ true ↦ skip_digits cs | false ↦ c ∷ cs ]

unfoldable pub skip_spaces : List ℕ → List ℕ
skip_spaces [] = []
skip_spaces (c ∷ cs) = elim (is_space c) [ true ↦ skip_spaces cs | false ↦ c ∷ cs ]

-- The tests that the line goes on, and with such a character. `none` is a parse error.
unfoldable pub expect : (ℕ → Bool) → List ℕ → Option (List ℕ)
expect is_wanted [] = none
expect is_wanted (c ∷ cs) = if is_wanted c then some (c ∷ cs) else none

-- Behind digits: spaces must follow, and a digit behind them.
unfoldable pub expect_gap : List ℕ → Option (List ℕ)
expect_gap text = do spaces ← expect is_space text; expect is_digit (skip_spaces spaces)

-- The loop of parse_uint16 and parse_uint8, where `max` is UINT16_MAX or UINT8_MAX: each digit is
-- tested before it is taken. char_to_int knows every character that isdigit accepts.
unfoldable pub parse_digits : ℕ → ℕ → List ℕ → Option (ℕ × List ℕ)
parse_digits max val [] = some (val, [])
parse_digits max val (c ∷ cs) = elim (is_digit c) [
  | false ↦ some (val, c ∷ cs)
  | true ↦ elim (ltb ((max - (c - b'0')) / 10) val) [
    | true ↦ none
    | false ↦ parse_digits max (10 * val + (c - b'0')) cs
  ]
]

-- StatParser::parse_uint16 and StatParser::parse_uint8.
unfoldable pub parse_uint16 : List ℕ → Option (ℕ × List ℕ)
parse_uint16 text = parse_digits 65535 0 text

unfoldable pub take_delim : ℕ → ℕ × List ℕ → Option (ℕ × List ℕ)
take_delim delim (val, []) = none
take_delim delim (val, c ∷ cs) = if c == delim then some (val, cs) else none

unfoldable pub parse_uint8 : ℕ → List ℕ → Option (ℕ × List ℕ)
parse_uint8 delim text = do parsed ← parse_digits 255 0 text; take_delim delim parsed

-- The packet number and the relative time, behind the `P`, up to the length.
unfoldable pub skip_time : List ℕ → Option (List ℕ)
skip_time text = do
  number ← expect is_digit (skip_spaces text)
  seconds ← expect_gap (skip_digits number)
  point ← expect (λ c. c == b'.') (skip_digits seconds)
  elim point [ [] ↦ none | c ∷ cs ↦ expect_gap (skip_digits cs) ]

-- The address and the port, and the blanks up to the end of the line.
unfoldable pub parse_address : ℕ → List ℕ → Option Packet
parse_address length text = do
  (a, text1) ← parse_uint8 b'.' text
  (b, text2) ← parse_uint8 b'.' text1
  (c, text3) ← parse_uint8 b'.' text2
  (d, text4) ← parse_uint8 b':' text3
  (port, text5) ← parse_uint16 text4
  elim (skip_spaces text5) [
    | [] ↦ some (record { length = length; source_address = (a, b, c, d); port = port })
    | c ∷ cs ↦ none
  ]

-- A line behind its first character `P`.
unfoldable pub parse_p : List ℕ → Option Packet
parse_p text = do
  size ← skip_time text
  (length, text1) ← parse_uint16 size
  address ← expect_gap text1
  parse_address length address
