-- ===== src/Info/Model.antt =====
-- The registries of lib/InfoModel.cpp, and InfoElement::forLen with its cache.
use libfc.Prelude.{
  ℕ, ◌+◌, List, [], ◌∷◌, Option, none, some, ◌==◌, ◌&&◌, ◌||◌, if◌then◌else◌, Outcome, ok, thrown,
  ◌>>=◌, Bool, true, false, not, same_text, codes,
}
use libfc.Info.Types.{InfoElement, IeType, unknown}
use libfc.Info.Names.{lookup_ie_type}
use libfc.Info.Spec.{parse_ie_spec}

-- `registry` joins iana_registry_ (pen 0) and pen_registry_; `names` is name_registry_, the last entry
-- of a name first; `derived` joins the caches rle_ of
-- the registered elements; `next` is the address of the next object that is allocated.
pub record InfoModel : Type 0 where
  pub registry : List InfoElement
  pub names : List (List ℕ × InfoElement)
  pub derived : List InfoElement
  pub next : ℕ

abbrev pub is_empty : List ℕ → Bool
is_empty [] = true
is_empty (c ∷ cs) = false

-- The test `ietype == IEType::unknown ()`.
abbrev is_unknown : Option IeType → Bool
is_unknown none = false
is_unknown (some unknown) = true
is_unknown (some _) = false

-- The registered element for an enterprise number and an element number.
unfoldable pub find_ie : List InfoElement → ℕ → ℕ → Option InfoElement
find_ie [] pen number = none
find_ie (x ∷ xs) pen number =
    if (x.pen == pen) && (x.number == number) then some x else find_ie xs pen number

-- The cached element of one length.
unfoldable pub find_len : List InfoElement → ℕ → ℕ → ℕ → Option InfoElement
find_len [] pen number len = none
find_len (x ∷ xs) pen number len =
    if (x.pen == pen) && (x.number == number) && (x.len == len)
    then some x
    else find_len xs pen number len

-- InfoElement::forLen: the element itself, the cached element, or a new one.
unfoldable pub for_len : InfoModel → InfoElement → ℕ → InfoElement × InfoModel
for_len m ie len =
    if (ie.len == len) || (len == 0)
    then (ie, m)
    else elim (find_len m.derived ie.pen ie.number len) [
      | some x ↦ (x, m)
      | none ↦ (
        record ie { address = m.next; len = len },
        record m {
          derived = record ie { address = m.next; len = len } ∷ m.derived;
          next = m.next + 1;
        },
      )
    ]

-- InfoModel::lookupIE (pen, number, len).
unfoldable pub lookup_ie : InfoModel → ℕ → ℕ → ℕ → Option (InfoElement × InfoModel)
lookup_ie m pen number len = elim (find_ie m.registry pen number) [
  | none ↦ none
  | some ie ↦ some (for_len m ie len)
]

-- The test of InfoModel::add for an element with a name, a number and a type. A null type passes.
unfoldable pub is_complete : InfoElement → Bool
is_complete ie = not (is_empty ie.name) && (not (ie.number == 0) && not (is_unknown ie.ietype))

-- InfoModel::add. A registered element with the same numbers is returned, at the length asked for;
-- another is copied to a new address, and entered under its numbers and its name.
unfoldable pub add : InfoModel → InfoElement → Outcome (InfoElement × InfoModel)
add m ie = if not (is_complete ie) then thrown else elim (lookup_ie m ie.pen ie.number ie.len) [
  | some r ↦ ok r
  | none ↦
      let new = record ie { address = m.next } in
      ok (
        new,
        record m {
          registry = new ∷ m.registry;
          names = (ie.name, new) ∷ m.names;
          next = m.next + 1;
        },
      )
]

-- InfoModel::add_unknown.
unfoldable pub add_unknown : InfoModel → ℕ → ℕ → ℕ → Outcome (InfoElement × InfoModel)
add_unknown m pen number len = add m (record {
  address = 0;
  name = codes "__ipfix_";
  pen = pen;
  number = number;
  ietype = lookup_ie_type (codes "octetArray");
  len = len;
})

-- The element that is entered under a name.
unfoldable pub find_name : List (List ℕ × InfoElement) → List ℕ → Option InfoElement
find_name [] name = none
find_name ((n, ie) ∷ names) name = if same_text n name then some ie else find_name names name

-- InfoModel::lookupIE for an element, by its numbers or else by its name.
unfoldable pub lookup_specie : InfoModel → InfoElement → Outcome (Option (InfoElement × InfoModel))
lookup_specie m specie =
    if not (specie.number == 0)
    then ok (lookup_ie m specie.pen specie.number specie.len)
    else if is_empty specie.name
    then thrown
    else elim (find_name m.names specie.name) [
      | none ↦ ok none
      | some ie ↦ ok (some (for_len m ie specie.len))
    ]

-- InfoModel::add and InfoModel::lookupIE for a specification.
unfoldable pub add_spec : InfoModel → List ℕ → Outcome InfoModel
add_spec m spec = parse_ie_spec spec >>= λ ie. add m ie >>= λ (_, m'). ok m'

unfoldable pub lookup_spec : InfoModel → List ℕ → Outcome (Option (InfoElement × InfoModel))
lookup_spec m spec = parse_ie_spec spec >>= lookup_specie m

-- A sequence of calls of InfoModel::add for specifications.
unfoldable pub add_specs : InfoModel → List (List ℕ) → Outcome InfoModel
add_specs m [] = ok m
add_specs m (spec ∷ specs) = add_spec m spec >>= λ m'. add_specs m' specs
