-- ===== src/Info/Shorter.antt =====
-- Reading a part of a specification leaves a text that is no longer: lib/InfoModel.cpp, parseIESpec.
use libfc.Prelude.{
  ℕ, ◌+◌, ◌*◌, ◌-◌, ◌≡◌, ◌≤◌, ◌⊎◌, refl, arith, Bool, true, false, List, [], ◌∷◌, some, length,
  span, Outcome, ok, thrown, ◌>>=◌, ◌==◌, Bool-cases, inl, inr,
}
use libfc.Info.Decimal.{read_digits, read_unsigned, read_signed, read_number, skip_space}
use libfc.Info.Spec.{match_char}

-- A call that is not out of fuel, and whose result has a property.
pub data Yields {ℓ} {A : Type ℓ} (P : A → Type 0) : Outcome A → Type ℓ where
  yields : (a : A) → P a → Yields P (ok a)
  throws : Yields P thrown

pub bind-Yields {ℓ κ} :
    {A : Type ℓ} {B : Type κ} (P : A → Type 0) (Q : B → Type 0) (m : Outcome A) (f : A → Outcome B)
    → Yields P m
    → ((a : A) → P a → Yields Q (f a))
    → Yields Q (m >>= f)
bind-Yields P Q m f (yields a p) k = k a p
bind-Yields P Q m f throws k = throws

pub Yields-cases {ℓ} :
    {A : Type ℓ} {P : A → Type 0} {m : Outcome A}
    → Yields P m
    → ((a : A) × (m ≡ ok a)) ⊎ (m ≡ thrown)
Yields-cases (yields a p) = inl (a, refl)
Yields-cases throws = inr refl

-- The text behind a part is no longer than `n`.
abbrev pub Left {ℓ} : {A : Type ℓ} → ℕ → A × List ℕ → Type 0
Left n (a, rest) = length rest ≤ n

pub length-span : (stop : ℕ → Bool) (text : List ℕ) → length (span stop text).1 ≤ length text
unfolding span
length-span stop [] = omega arith
length-span stop (c ∷ cs) = elim (Bool-cases (stop c)) [
  | inl e ↦ rw (e, span) (omega arith)
  | inr e ↦ rw (e, span) (omega (arith, length-span stop cs))
]

length-read_digits : (acc : ℕ) (text : List ℕ) → length (read_digits acc text).1 ≤ length text
unfolding read_digits
length-read_digits acc [] = omega arith
length-read_digits acc (c ∷ cs) = ground (arith, length-read_digits (acc * 10 + (c - b'0')) cs)

length-read_unsigned :
    (bits : ℕ) (negative : Bool) (text rest : List ℕ) (value : ℕ)
    → read_unsigned bits negative text ≡ some (value, rest)
    → length rest ≤ length text
unfolding read_unsigned
length-read_unsigned bits negative [] rest value e = cc
length-read_unsigned bits negative (c ∷ cs) rest value e =
    ground (arith, length-read_digits 0 (c ∷ cs))

pub match_char-Yields :
    (x : ℕ) (text : List ℕ) → Yields (λ rest. length rest ≤ length text) (match_char x text)
unfolding match_char
match_char-Yields x [] = throws
match_char-Yields x (c ∷ cs) = elim (Bool-cases (c == x)) [
  | inl e ↦ rw e (yields cs (omega arith))
  | inr e ↦ rw e throws
]

length-skip_space : (text : List ℕ) → length (skip_space text) ≤ length text
unfolding skip_space
length-skip_space [] = omega arith
length-skip_space (c ∷ cs) = ground (arith, length-skip_space cs)

length-read_signed :
    (bits : ℕ) (text rest : List ℕ) (value : ℕ)
    → read_signed bits text ≡ some (value, rest)
    → length rest ≤ length text
unfolding read_signed
length-read_signed bits [] rest value e = cc
length-read_signed bits (c ∷ cs) rest value e = ground (
  arith,
  length-read_unsigned bits true cs rest value,
  length-read_unsigned bits false cs rest value,
  length-read_unsigned bits false (c ∷ cs) rest value,
)

pub length-read_number :
    (bits : ℕ) (text rest : List ℕ) (value : ℕ)
    → read_number bits text ≡ some (value, rest)
    → length rest ≤ length text
unfolding read_number
length-read_number bits text rest value e =
    omega (arith, length-skip_space text, length-read_signed bits (skip_space text) rest value e)
