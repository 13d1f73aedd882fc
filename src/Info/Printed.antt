-- ===== src/Info/Printed.antt =====
-- InfoModel::parseIESpec reads what InfoElement::toIESpec prints.
use libfc.Prelude.{
  not, ◌==◌, ◌%◌, length-append, ◌-◌, ℕ, suc, ◌^◌, ◌≡◌, ◌≢◌, ◌≤◌, ◌<◌, refl, true, false, arith,
  List, [], ◌∷◌, ◌++◌, some, ok, ◌>>=◌, Free, length,
}
use libfc.Info.Types.{InfoElement, IeType, unknown}
use libfc.Info.Names.{type_name, lookup_ie_type-type_name}
use libfc.Info.Decimal.{print_number}
use libfc.Info.Spec.{
  parse_name_part, Spec, blank, opens, has_part, parse_part, parse_parts, element_of, parse_ie_spec,
}
use libfc.Info.Print.{print_rest, to_ie_spec}
use libfc.Info.Parts.{
  print_num_pen_longer, IsSpecLen, print_num_pen, parse_number_part-print, parse_name_part-Free,
  parse_length_part-print_number, parse_type_part-type_name,
}

-- What the loop reads.
abbrev read_spec : List ℕ → ℕ → ℕ → IeType → ℕ → Spec
read_spec name pen number t len = record {
  name = name;
  type_text = type_name t;
  number = number;
  pen = pen;
  len = len;
  name_set = true;
  type_set = true;
  ctx_set = false;
  number_set = true;
  pen_set = not (pen == 0);
  len_set = true;
}

has_part_append :
    (xs : List ℕ) (c : ℕ) (rest : List ℕ) → opens c ≡ true → has_part (xs ++ (c ∷ rest)) ≡ true
unfolding has_part
has_part_append [] c rest h = rw (h, has_part) refl
has_part_append (x ∷ xs) c rest h = ground (arith, has_part_append xs c rest h)

parse_part_name :
    (s : Spec) (c : ℕ) (text : List ℕ)
    → opens c ≡ false
    → parse_part s c text ≡ parse_name_part s c text
unfolding parse_part opens
parse_part_name s c text h = ground arith

-- The texts of the last parts.
abbrev length_text : ℕ → List ℕ
length_text len = b'[' ∷ print_number len (b']' ∷ [])

abbrev type_text : IeType → ℕ → List ℕ
type_text t len = b'<' ∷ (type_name t ++ (b'>' ∷ length_text len))

abbrev number_text : ℕ → ℕ → IeType → ℕ → List ℕ
number_text pen number t len = b'(' ∷ print_num_pen pen number (type_text t len)

-- The four parts, one round for each.
module _ (c : ℕ) (cs : List ℕ) (pen number : ℕ) (t : IeType) (len fuel : ℕ)
    (plain : opens c ≡ false) (free : Free opens cs) (p : pen < 2 ^ 32) (n : number < 2 ^ 16)
    (l : IsSpecLen len) where
  parse_length_round :
      (s : Spec)
      → s.len_set ≡ false
      → parse_parts (suc fuel) s (length_text len) ≡ ok (record s { len = len; len_set = true })
  unfolding parse_parts parse_part
  parse_length_round s e = rw (parse_length_part-print_number s len e l, parse_parts) refl

  parse_type_round :
      (s : Spec)
      → s.type_set ≡ false
      → s.len_set ≡ false
      → parse_parts (suc (suc fuel)) s (type_text t len)
        ≡ ok (record s { type_text = type_name t; type_set = true; len = len; len_set = true })
  unfolding parse_parts parse_part
  parse_type_round s e1 e2 =
      rw (parse_type_part-type_name s t (length_text len) e1, parse_parts)
        (parse_length_round (record s { type_text = type_name t; type_set = true }) e2)

  parse_number_round :
      (s : Spec)
      → s.number_set ≡ false
      → s.pen_set ≡ false
      → s.type_set ≡ false
      → s.len_set ≡ false
      → parse_parts (suc (suc (suc fuel))) s (number_text pen number t len)
        ≡ ok (record s {
          number = number;
          pen = pen;
          number_set = true;
          pen_set = not (pen == 0);
          type_text = type_name t;
          type_set = true;
          len = len;
          len_set = true;
        })
  unfolding parse_parts parse_part
  parse_number_round s e0 e' e1 e2 =
      rw (parse_number_part-print s pen number (type_text t len) e0 e' p (omega arith), parse_parts)
        (parse_type_round
          (record s { number = number; pen = pen; number_set = true; pen_set = not (pen == 0) }) e1
          e2)

  parse_name_round :
      parse_parts (suc (suc (suc (suc fuel)))) blank (c ∷ (cs ++ (number_text pen number t len)))
      ≡ ok (read_spec (c ∷ cs) pen number t len)
  unfolding parse_parts opens
  parse_name_round =
      let name =
        parse_name_part-Free blank c b'(' cs (print_num_pen pen number (type_text t len)) refl free
          refl in
      rw (parse_part_name blank c (cs ++ (number_text pen number t len)) plain, name, parse_parts)
        (parse_number_round (record blank { name = c ∷ cs; name_set = true }) refl refl refl refl)

longer :
    (c : ℕ) (cs : List ℕ) (pen number : ℕ) (t : IeType) (len : ℕ)
    → 4 ≤ length (c ∷ (cs ++ number_text pen number t len))
longer c cs pen number t len =
    let size = length-append cs (number_text pen number t len) in
    let more = print_num_pen_longer pen number (type_text t len) in omega arith

at_least : (n : ℕ) → 4 ≤ n → (k : ℕ) × (n ≡ suc (suc (suc (suc k))))
at_least n l = (n - 4, omega arith)

-- The elements whose specification can be read back: the name has no opening bracket, the type is one
-- of the registered ones, the numbers fit, and the length is one that the parser takes.
pub record IsPrintable (ie : InfoElement) : Type 0 where
  pub named : 0 < length ie.name
  pub plain : Free opens ie.name
  pub pen_small : ie.pen < 2 ^ 32
  pub number_small : ie.number < 2 ^ 16
  pub len_small : IsSpecLen ie.len
  pub typed : (t : IeType) × (ie.ietype ≡ some t) × (t ≢ unknown)

parse_printed :
    (name : List ℕ) (pen number : ℕ) (t : IeType) (len : ℕ)
    → 0 < length name
    → Free opens name
    → pen < 2 ^ 32
    → number < 2 ^ 16
    → IsSpecLen len
    → t ≢ unknown
    → parse_ie_spec (name ++ print_rest pen number t len)
      ≡ ok (record {
        address = 0;
        name = name;
        pen = pen;
        number = number;
        ietype = some t;
        len = len;
      })
unfolding parse_ie_spec print_rest element_of opens
parse_printed [] pen number t len e f p n l k = absurd (omega arith)
parse_printed (c ∷ cs) pen number t len e f p n l k =
    let text = number_text pen number t len in
    let (fuel, enough) = at_least (length (c ∷ (cs ++ text))) (longer c cs pen number t len) in
    let read = parse_name_round c cs pen number t len fuel f.0 f.1 p n l in
    let known = lookup_ie_type-type_name t k in
    let brackets =
      has_part_append (c ∷ cs) b'(' (print_num_pen pen number (type_text t len)) refl in
    let keep_number : number % 2 ^ 16 ≡ number = omega arith in
    let keep_len : len % 2 ^ 16 ≡ len = omega arith in
    rw (brackets, enough, read, known, keep_number, keep_len, parse_ie_spec) refl

-- What toIESpec prints of an element, parseIESpec reads back as the same element, at no address.
pub parse_ie_spec-to_ie_spec :
    (ie : InfoElement)
    → IsPrintable ie
    → (to_ie_spec ie >>= parse_ie_spec) ≡ ok (record ie { address = 0 })
unfolding to_ie_spec
parse_ie_spec-to_ie_spec ie v =
    let (t, e, k) = v.typed in
    rw e (
      parse_printed ie.name ie.pen ie.number t ie.len v.named v.plain v.pen_small v.number_small
        v.len_small k)
