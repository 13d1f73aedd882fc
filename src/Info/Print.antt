-- ===== src/Info/Print.antt =====
-- InfoElement::toIESpec.
use libfc.Prelude.{ℕ, List, [], ◌∷◌, ◌++◌, none, some, Outcome, ok, undefined, ◌==◌, if◌then◌else◌}
use libfc.Info.Types.{InfoElement, IeType}
use libfc.Info.Names.{type_name}
use libfc.Info.Decimal.{print_number}

-- What follows the name.
unfoldable pub print_rest : ℕ → ℕ → IeType → ℕ → List ℕ
print_rest pen number t len =
    let tail =
      print_number number
        (b')' ∷ b'<' ∷ (type_name t ++ (b'>' ∷ b'[' ∷ print_number len (b']' ∷ [])))) in
    b'(' ∷ (if pen == 0 then tail else print_number pen (b'/' ∷ tail))

-- InfoElement::toIESpec. A null type is dereferenced.
unfoldable pub to_ie_spec : InfoElement → Outcome (List ℕ)
to_ie_spec ie = elim ie.ietype [
  | none ↦ undefined
  | some t ↦ ok (ie.name ++ print_rest ie.pen ie.number t ie.len)
]
