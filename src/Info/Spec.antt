-- ===== src/Info/Spec.antt =====
-- lib/InfoModel.cpp: the parser of textual element specifications, InfoModel::parseIESpec.
use libfc.Prelude.{
  ℕ, zero, suc, ◌-◌, ◌%◌, ◌^◌, Bool, true, false, ◌&&◌, ◌||◌, not, List, [], ◌∷◌, none, some, ltb,
  ◌==◌, if◌then◌else◌, length, span, Outcome, ok, thrown, exhausted, throw_if, assert, ◌>>=◌, ◌>>◌,
}
use libfc.Constants.{ipfix_message_header_len, ipfix_set_header_len}
use libfc.Info.Types.{InfoElement, ipfix_varlen}
use libfc.Info.Names.{lookup_ie_type}
use libfc.Info.Decimal.{read_number}

-- What opens a part of a specification other than the name.
unfoldable pub opens : ℕ → Bool
opens c = (c == b'(') || ((c == b'{') || ((c == b'<') || (c == b'[')))

-- The locals of parseIESpec.
pub record Spec : Type 0 where
  pub name : List ℕ
  pub type_text : List ℕ
  pub number : ℕ
  pub pen : ℕ
  pub len : ℕ
  pub name_set : Bool
  pub type_set : Bool
  pub ctx_set : Bool
  pub number_set : Bool
  pub pen_set : Bool
  pub len_set : Bool

abbrev pub blank : Spec
blank = record {
  name = [];
  type_text = [];
  number = 0;
  pen = 0;
  len = 0;
  name_set = false;
  type_set = false;
  ctx_set = false;
  number_set = false;
  pen_set = false;
  len_set = false;
}

-- match: the next character must be `x`.
unfoldable pub match_char : ℕ → List ℕ → Outcome (List ℕ)
match_char x [] = thrown
match_char x (c ∷ cs) = if c == x then ok cs else thrown

-- parseIESpec_NumPen: the number, the enterprise number, and the text behind them. At the end of the
-- text the stream is in error, and the match that follows fails.
unfoldable pub parse_num_pen : List ℕ → Outcome (ℕ × ℕ × List ℕ)
parse_num_pen text = elim (read_number 32 text) [
  | none ↦ thrown
  | some (first, []) ↦ ok (first, 0, [])
  | some (first, c ∷ rest) ↦ elim (c == b'/') [
    | false ↦ ok (first, 0, c ∷ rest)
    | true ↦ elim (read_number 32 rest) [
      | none ↦ thrown
      | some (number, rest') ↦ ok (number, first, rest')
    ]
  ]
]

-- The length that parseIESpec_Length makes of the text in brackets. std::stoul does not mind what
-- follows the digits.
unfoldable pub length_of : List ℕ → Outcome ℕ
length_of text = elim (read_number 64 text) [
  | none ↦ thrown
  | some (ullen, rest) ↦
      if not (ullen == ipfix_varlen)
        && ltb (ipfix_varlen - ipfix_message_header_len - ipfix_set_header_len) ullen
      then thrown
      else ok ullen
]

unfoldable pub bracketed_length : List ℕ → Outcome ℕ
bracketed_length [] = thrown
bracketed_length (c ∷ cs) = if c == b'v' then ok ipfix_varlen else length_of (c ∷ cs)

-- parseIESpec_Length.
unfoldable pub parse_length : List ℕ → Outcome (ℕ × List ℕ)
parse_length text =
    let (inside, rest) = span (λ c. c == b']') text in
    bracketed_length inside >>= λ len. ok (len, rest)

-- A type or a context, up to its closing character. An empty one puts the stream in error.
unfoldable pub close_part : ℕ → List ℕ → List ℕ → Outcome (List ℕ × List ℕ)
close_part closing [] rest = thrown
close_part closing (c ∷ cs) rest = match_char closing rest >>= λ rest'. ok (c ∷ cs, rest')

unfoldable pub parse_until : ℕ → List ℕ → Outcome (List ℕ × List ℕ)
parse_until closing text =
    let (inside, rest) = span (λ c. c == closing) text in close_part closing inside rest

-- The cases of parseIESpec_Initial.
unfoldable pub parse_number_part : Spec → List ℕ → Outcome (Spec × List ℕ)
parse_number_part s text =
    assert (not s.pen_set || s.number_set)
    >> (throw_if s.number_set
        >> (parse_num_pen text >>= λ (number, pen, rest). match_char b')' rest >>= λ rest'. ok (
          record s { number = number; pen = pen; number_set = true; pen_set = not (pen == 0) },
          rest',
        )))

unfoldable pub parse_length_part : Spec → List ℕ → Outcome (Spec × List ℕ)
parse_length_part s text =
    throw_if s.len_set
    >> (parse_length text >>= λ (len, rest).
        match_char b']' rest >>= λ rest'. ok (record s { len = len; len_set = true }, rest'))

unfoldable pub parse_type_part : Spec → List ℕ → Outcome (Spec × List ℕ)
parse_type_part s text =
    throw_if s.type_set
    >> (parse_until b'>' text >>= λ (inside, rest).
        ok (record s { type_text = inside; type_set = true }, rest))

unfoldable pub parse_context_part : Spec → List ℕ → Outcome (Spec × List ℕ)
parse_context_part s text =
    throw_if s.ctx_set
    >> (parse_until b'}' text >>= λ (inside, rest). ok (record s { ctx_set = true }, rest))

unfoldable pub parse_name_part : Spec → ℕ → List ℕ → Outcome (Spec × List ℕ)
parse_name_part s c text =
    let (more, rest) = span opens text in
    throw_if s.name_set >> ok (record s { name = c ∷ more; name_set = true }, rest)

-- parseIESpec_Initial, at the character that it has read.
unfoldable pub parse_part : Spec → ℕ → List ℕ → Outcome (Spec × List ℕ)
parse_part s c text =
    if c == b'('
    then parse_number_part s text
    else if c == b'['
    then parse_length_part s text
    else if c == b'<'
    then parse_type_part s text
    else if c == b'{'
    then parse_context_part s text
    else parse_name_part s c text

-- The loop of parseIESpec, on fuel, up to the end of the text.
unfoldable pub parse_parts : ℕ → Spec → List ℕ → Outcome Spec
parse_parts fuel s [] = ok s
parse_parts zero s (c ∷ cs) = exhausted
parse_parts (suc fuel) s (c ∷ cs) = parse_part s c cs >>= λ (s', rest). parse_parts fuel s' rest

-- The test of parseIESpec for a specification that is a name only.
unfoldable pub has_part : List ℕ → Bool
has_part [] = false
has_part (c ∷ cs) = opens c || has_part cs

-- InfoElement's constructor: the number and the length are `uint16_t`. The element is a local object,
-- whose address nothing compares.
unfoldable pub element_of : Spec → InfoElement
element_of s = record {
  address = 0;
  name = s.name;
  pen = s.pen;
  number = s.number % 2 ^ 16;
  ietype = lookup_ie_type s.type_text;
  len = s.len % 2 ^ 16;
}

abbrev pub name_only : List ℕ → InfoElement
name_only text = record { address = 0; name = text; pen = 0; number = 0; ietype = none; len = 0 }

-- InfoModel::parseIESpec. The loop has fuel for every character.
unfoldable pub parse_ie_spec : List ℕ → Outcome InfoElement
parse_ie_spec text =
    if has_part text
    then (parse_parts (length text) blank text >>= λ s. ok (element_of s))
    else ok (name_only text)
