-- ===== src/Prelude/Text.antt =====
-- Texts as the lists of their code points: the bytes of a `std::string`, for the ASCII texts of the source.
use Prim.Native.Char.{code}
use Prim.Native.String.{String}
use Prim.Native.Nat.{ℕ}
use mathlib.Core.Path.{◌≡◌, refl, ap}
use mathlib.Core.Bool.{Bool, true, false, ◌&&◌}
use mathlib.Core.List.{List, [], ◌∷◌, ◌++◌}
use native.Mathlib.Omega.{arith}
use libfc.Prelude.Tests.{◌==◌}

abbrev pub codes : String → List ℕ
codes String.[] = []
codes (String.◌∷◌ c s) = code c ∷ codes s

-- std::string::operator==.
unfoldable pub same_text : List ℕ → List ℕ → Bool
same_text [] [] = true
same_text (x ∷ xs) (y ∷ ys) = (x == y) && same_text xs ys
same_text xs ys = false

pub same_text_refl : (s : List ℕ) → same_text s s ≡ true
unfolding same_text
same_text_refl [] = refl
same_text_refl (x ∷ xs) = ground (arith, same_text_refl xs)

-- The part of a text before a character that stops, and the rest.
unfoldable pub span : (ℕ → Bool) → List ℕ → List ℕ × List ℕ
span stop [] = ([], [])
span stop (c ∷ cs) = elim (stop c) [
  | true ↦ ([], c ∷ cs)
  | false ↦ let (before, rest) = span stop cs in (c ∷ before, rest)
]

-- No character of the text stops.
abbrev pub Free : (ℕ → Bool) → List ℕ → Type 0
Free stop [] = Unit {0}
Free stop (c ∷ cs) = (stop c ≡ false) × Free stop cs

pub span-append :
    (stop : ℕ → Bool) (xs : List ℕ) (c : ℕ) (rest : List ℕ)
    → Free stop xs
    → stop c ≡ true
    → span stop (xs ++ (c ∷ rest)) ≡ (xs, c ∷ rest)
unfolding span
span-append stop [] c rest f h = rw (h, span) refl
span-append stop (x ∷ xs) c rest f h =
    let ih = span-append stop xs c rest f.1 h in rw (f.0, span) (ap (λ r. (x ∷ r.0, r.1)) ih)
