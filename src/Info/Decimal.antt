-- ===== src/Info/Decimal.antt =====
-- Decimal numbers in texts, as the source reads and prints them with the standard library.
use libfc.Prelude.{
  ℕ, zero, suc, ◌+◌, ◌-◌, ◌*◌, ◌/◌, ◌%◌, ◌^◌, ◌≡◌, ◌<◌, refl, ◌∙◌, ap, arith, Bool, true, false,
  ◌&&◌, ◌||◌, List, [], ◌∷◌, Option, none, some, ltb, leb, ◌==◌, if◌then◌else◌, Bool-cases, inl,
  ltb→lt, inr, sym, lt→ltb, ◌++◌, Free, length, length-append,
}

unfoldable pub is_digit : ℕ → Bool
is_digit c = leb b'0' c && leb c b'9'

-- isspace in the C locale.
unfoldable pub is_space : ℕ → Bool
is_space c = (c == b' ') || (leb 9 c && leb c 13)

unfoldable pub skip_space : List ℕ → List ℕ
skip_space [] = []
skip_space (c ∷ cs) = elim (is_space c) [ true ↦ skip_space cs | false ↦ c ∷ cs ]

-- The number that the digits at the start of a text add to `acc`, and the text behind them.
unfoldable pub read_digits : ℕ → List ℕ → ℕ × List ℕ
read_digits acc [] = (acc, [])
read_digits acc (c ∷ cs) = elim (is_digit c) [
  | true ↦ read_digits (acc * 10 + (c - b'0')) cs
  | false ↦ (acc, c ∷ cs)
]

-- The digits of a number below `2 ^ bits`: there must be one, and the value must fit.
unfoldable pub read_unsigned : ℕ → Bool → List ℕ → Option (ℕ × List ℕ)
read_unsigned bits negative [] = none
read_unsigned bits negative (c ∷ cs) =
    let (value, rest) = read_digits 0 (c ∷ cs) in
    if is_digit c && ltb value (2 ^ bits)
    then some (if negative then (2 ^ bits - value) % 2 ^ bits else value, rest)
    else none

-- `stream >> n` for an unsigned n of `bits` bits, and std::stoul at 64: leading space, one sign, of
-- which a minus negates the value in the type, and digits. `none` is a failure.
unfoldable pub read_signed : ℕ → List ℕ → Option (ℕ × List ℕ)
read_signed bits [] = none
read_signed bits (c ∷ cs) =
    if c == b'-'
    then read_unsigned bits true cs
    else if c == b'+'
    then read_unsigned bits false cs
    else read_unsigned bits false (c ∷ cs)

unfoldable pub read_number : ℕ → List ℕ → Option (ℕ × List ℕ)
read_number bits text = read_signed bits (skip_space text)

-- `stream << n`: the digits of `n` before `rest`. One unit of fuel for each digit.
unfoldable pub print_digits : ℕ → ℕ → List ℕ → List ℕ
print_digits zero n rest = rest
print_digits (suc fuel) n rest = elim (ltb n 10) [
  | true ↦ (b'0' + n) ∷ rest
  | false ↦ print_digits fuel (n / 10) ((b'0' + n % 10) ∷ rest)
]

unfoldable pub print_number : ℕ → List ℕ → List ℕ
print_number n rest = print_digits (n + 1) n rest

-- What is read from the digits of `n` is `n`.
digit_value :
    (acc n total : ℕ) (rest : List ℕ)
    → n < 10
    → acc * 10 + n ≡ total
    → read_digits acc ((b'0' + n) ∷ rest) ≡ read_digits total rest
unfolding read_digits is_digit
digit_value acc n total rest l e =
    let digit : (leb b'0' (b'0' + n) && leb (b'0' + n) b'9') ≡ true = ground arith in
    let value : acc * 10 + (b'0' + n - b'0') ≡ total = omega arith in
    rw (digit, read_digits, value) refl

fewer_digits : (n fuel : ℕ) → ltb n 10 ≡ false → n < suc fuel → n / 10 < fuel
fewer_digits n fuel e l = ground arith

read_digits-print_digits :
    (fuel n : ℕ) (rest : List ℕ)
    → n < fuel
    → read_digits 0 (print_digits fuel n rest) ≡ read_digits n rest
unfolding print_digits
read_digits-print_digits zero n rest l = absurd (omega arith)
read_digits-print_digits (suc fuel) n rest l = elim (Bool-cases (ltb n 10)) [
  | inl e ↦ rw (e, print_digits) (digit_value 0 n n rest (ltb→lt n 10 e) (omega arith))
  | inr e ↦
      let ih =
        read_digits-print_digits fuel (n / 10) ((b'0' + n % 10) ∷ rest) (fewer_digits n fuel e l) in
      rw (e, print_digits) (ih ∙ digit_value (n / 10) (n % 10) n rest (omega arith) (omega arith))
]

-- A text of digits starts with one.
print_digits_starts :
    (fuel n : ℕ) (rest : List ℕ)
    → n < fuel
    → (d : ℕ) × (ds : List ℕ) × (print_digits fuel n rest ≡ d ∷ ds) × (is_digit d ≡ true)
unfolding print_digits is_digit
print_digits_starts zero n rest l = absurd (omega arith)
print_digits_starts (suc fuel) n rest l = elim (Bool-cases (ltb n 10)) [
  | inl e ↦ (b'0' + n, rest, rw (e, print_digits) refl, ground (arith, ltb→lt n 10 e))
  | inr e ↦
      let (d, ds, eq, digit) =
        print_digits_starts fuel (n / 10) ((b'0' + n % 10) ∷ rest) (fewer_digits n fuel e l) in
      (d, ds, rw (e, print_digits) eq, digit)
]

-- The text behind a number does not go on with a digit.
abbrev pub Stops : List ℕ → Type 0
Stops [] = Unit {0}
Stops (c ∷ cs) = is_digit c ≡ false

read_digits_stop : (n : ℕ) (rest : List ℕ) → Stops rest → read_digits n rest ≡ (n, rest)
unfolding read_digits
read_digits_stop n [] h = refl
read_digits_stop n (c ∷ cs) h = rw (h, read_digits) refl

-- A digit is no space and no sign.
digit_plain :
    (d : ℕ)
    → is_digit d ≡ true
    → (is_space d ≡ false) × ((d == b'-') ≡ false) × ((d == b'+') ≡ false)
unfolding is_digit is_space
digit_plain d h = (ground arith, ground arith, ground arith)

read_number-digit :
    (bits d value : ℕ) (ds rest : List ℕ)
    → is_digit d ≡ true
    → read_digits 0 (d ∷ ds) ≡ (value, rest)
    → value < 2 ^ bits
    → read_number bits (d ∷ ds) ≡ some (value, rest)
unfolding read_number skip_space read_signed read_unsigned
read_number-digit bits d value ds rest h e l =
    let (space, minus, plus) = digit_plain d h in
    rw (space, skip_space)
      (rw (minus, plus, read_signed) (rw (e, h, lt→ltb value (2 ^ bits) l, read_unsigned) refl))

-- A number that was printed is read back, and the text behind it is left.
pub read_number-print_number :
    (bits n : ℕ) (rest : List ℕ)
    → n < 2 ^ bits
    → Stops rest
    → read_number bits (print_number n rest) ≡ some (n, rest)
unfolding print_number
read_number-print_number bits n rest l stop =
    let (d, ds, starts, digit) = print_digits_starts (n + 1) n rest (omega arith) in
    let value = read_digits-print_digits (n + 1) n rest (omega arith) in
    rw starts (
      read_number-digit bits d n ds rest digit
        (ap (read_digits 0) (sym starts) ∙ (value ∙ read_digits_stop n rest stop)) l)

pub print_number_starts :
    (n : ℕ) (rest : List ℕ)
    → (d : ℕ) × (ds : List ℕ) × (print_number n rest ≡ d ∷ ds) × (is_digit d ≡ true)
unfolding print_number
print_number_starts n rest = print_digits_starts (n + 1) n rest (omega arith)

print_digits_append :
    (fuel n : ℕ) (xs rest : List ℕ)
    → n < fuel
    → print_digits fuel n (xs ++ rest) ≡ print_digits fuel n xs ++ rest
unfolding print_digits
print_digits_append zero n xs rest l = absurd (omega arith)
print_digits_append (suc fuel) n xs rest l = elim (Bool-cases (ltb n 10)) [
  | inl e ↦ rw (e, print_digits) refl
  | inr e ↦
      rw (e, print_digits)
        (print_digits_append fuel (n / 10) ((b'0' + n % 10) ∷ xs) rest (fewer_digits n fuel e l))
]

pub print_number_append : (n : ℕ) (rest : List ℕ) → print_number n rest ≡ print_number n [] ++ rest
unfolding print_number
print_number_append n rest = print_digits_append (n + 1) n [] rest (omega arith)

module _ (stop : ℕ → Bool) (plain : (d : ℕ) → is_digit d ≡ true → stop d ≡ false) where
  print_digits-Free :
      (fuel n : ℕ) (xs : List ℕ) → n < fuel → Free stop xs → Free stop (print_digits fuel n xs)
  unfolding print_digits is_digit
  print_digits-Free zero n xs l f = absurd (omega arith)
  print_digits-Free (suc fuel) n xs l f = elim (Bool-cases (ltb n 10)) [
    | inl e ↦ rw (e, print_digits) (plain (b'0' + n) (ground (arith, ltb→lt n 10 e)), f)
    | inr e ↦
        rw (e, print_digits)
          (print_digits-Free fuel (n / 10) ((b'0' + n % 10) ∷ xs) (fewer_digits n fuel e l)
            (plain (b'0' + n % 10) (ground arith), f))
  ]

  -- A character that is no digit is not among those that are printed.
  pub print_number-Free : (n : ℕ) → Free stop (print_number n [])
  unfolding print_number
  print_number-Free n = print_digits-Free (n + 1) n [] (omega arith) tt

-- A number is printed with one digit at least.
pub print_number_longer : (n : ℕ) (rest : List ℕ) → length rest < length (print_number n rest)
print_number_longer n rest =
    let (d, ds, starts, digit) = print_number_starts n [] in
    let whole = print_number_append n rest ∙ ap (λ xs. xs ++ rest) starts in
    let size = length-append ds rest in rw whole (omega arith)

pub read_digits-print_number :
    (n : ℕ) (rest : List ℕ) → Stops rest → read_digits 0 (print_number n rest) ≡ (n, rest)
unfolding print_number
read_digits-print_number n rest stop =
    read_digits-print_digits (n + 1) n rest (omega arith) ∙ read_digits_stop n rest stop
