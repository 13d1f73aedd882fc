-- ===== src/Tests/Specs.antt =====
-- The theorems on element specifications and the information model at concrete inputs.
use libfc.Prelude.{
  ◌≡◌, ◌⊎◌, arith, refl, [], ◌∷◌, some, ok, thrown, ◌>>=◌, inl, codes, undefined, span, none,
  same_text,
}
use libfc.Info.Types.{InfoElement, unsigned32}
use libfc.Info.Spec.{parse_ie_spec, opens}
use libfc.Info.Model.{InfoModel, find_ie}
use libfc.Info.Print.{to_ie_spec}
use libfc.Info.Printed.{IsPrintable, parse_ie_spec-to_ie_spec}
use libfc.Info.Untyped.{add_spec_untyped}
use libfc.Info.Registry.{copied, extended}
use libfc.Info.Model.{add_spec}
use libfc.Info.Spec.{
  parse_parts, parse_part, parse_name_part, parse_number_part, parse_num_pen, match_char,
  parse_type_part, parse_until, close_part, parse_length_part, parse_length, bracketed_length,
  length_of, parse_context_part, element_of, has_part,
}
use libfc.Info.Decimal.{
  read_number, read_signed, skip_space, is_space, read_unsigned, is_digit, read_digits,
}
use libfc.Info.Names.{find_type, lookup_ie_type, type_name}
use libfc.Info.Ends.{parse_ie_spec-total}
use libfc.Info.Default.Tables.{default_5103}
use libfc.Info.Default.Complete.{AddsDefaults, default_5103-AddsDefaults}

abbrev octets : InfoElement
octets = record {
  address = 7;
  name = codes "octets";
  pen = 35632;
  number = 12;
  ietype = some unsigned32;
  len = 4;
}

abbrev empty_model : InfoModel
empty_model = record { registry = []; names = []; derived = []; next = 1 }

abbrev registered : InfoElement
registered = record octets { address = 1 }

abbrev small_model : InfoModel
small_model = record {
  registry = registered ∷ [];
  names = (codes "octets", registered) ∷ [];
  derived = [];
  next = 2;
}

octets-IsPrintable : IsPrintable octets
unfolding opens
octets-IsPrintable = record {
  named = omega arith;
  plain = (refl, (refl, (refl, (refl, (refl, (refl, tt))))));
  pen_small = omega arith;
  number_small = omega arith;
  len_small = inl (omega arith);
  typed = (unsigned32, refl, λ e. cc);
}

parse_ie_spec-to_ie_spec_example :
    (to_ie_spec octets >>= parse_ie_spec) ≡ ok (record octets { address = 0 })
parse_ie_spec-to_ie_spec_example = parse_ie_spec-to_ie_spec octets octets-IsPrintable

parse_ie_spec-total_example :
    ((ie : InfoElement) × (parse_ie_spec (codes "octets(12)<x>{}") ≡ ok ie))
    ⊎ (parse_ie_spec (codes "octets(12)<x>{}") ≡ thrown)
parse_ie_spec-total_example = parse_ie_spec-total (codes "octets(12)<x>{}")

default_5103-AddsDefaults_example : AddsDefaults empty_model (default_5103 empty_model)
default_5103-AddsDefaults_example = default_5103-AddsDefaults empty_model

abbrev untyped : InfoElement
untyped = record { address = 0; name = codes "x"; pen = 0; number = 9; ietype = none; len = 0 }

untyped_parsed : parse_ie_spec (codes "x(9)<unsigned128>") ≡ ok untyped
unfolding parse_ie_spec parse_parts parse_part parse_name_part parse_number_part parse_num_pen
    match_char parse_type_part parse_until close_part parse_length_part parse_length
    bracketed_length length_of parse_context_part element_of has_part opens span read_number
    read_signed skip_space is_space read_unsigned is_digit read_digits find_type lookup_ie_type
    type_name same_text
untyped_parsed = refl

untyped_free : find_ie empty_model.registry 0 9 ≡ none
unfolding find_ie
untyped_free = refl

add_spec_untyped_example :
    (add_spec empty_model (codes "x(9)<unsigned128>") ≡ ok (extended empty_model untyped))
    × (to_ie_spec (copied empty_model untyped) ≡ undefined)
add_spec_untyped_example =
    add_spec_untyped empty_model (codes "x(9)<unsigned128>") untyped untyped_parsed (omega arith)
      (omega arith) refl untyped_free
