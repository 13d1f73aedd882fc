-- ===== src/Handler/Fields.antt =====
-- Field specifiers from a placement template's wire form, read back by a handler of template sets.
use mathlib.Core.List.{append_assoc}
use libfc.Prelude.{
  ℕ, ◌+◌, ◌^◌, ◌≡◌, ◌≤◌, ◌<◌, refl, arith, false, List, [], ◌∷◌, ◌++◌, some, ◌==◌, not, length, All,
}
use libfc.Wire.{encode16, encode32, decode_uint16-encode16, decode_uint32-encode32}
use libfc.Errors.{return_ok}
use libfc.Info.Types.{InfoElement}
use libfc.Info.Template
use libfc.Info.Template.{IeTemplate}
use libfc.Info.Model.{InfoModel, lookup_ie}
use libfc.Placement.Wire.{or_enterprise_bit}
use libfc.Placement.Form.{field_octets, all_octets}
use libfc.Handler.State.{Handler}
use libfc.Handler.Templates.{
  FieldSpec, decode_enterprise, decode_field, field_element, field_specifier, add_field,
  handle_field, process_fields,
}

-- The element fits the fields of a specifier.
pub record IsCodable (ie : InfoElement) : Type 0 where
  pub number_small : ie.number < 2 ^ 15
  pub len_small : ie.len < 2 ^ 16
  pub pen_small : ie.pen < 2 ^ 32

-- The specifier of an element.
abbrev pub field_spec : InfoElement → FieldSpec
field_spec ie = record {
  enterprise = not (ie.pen == 0);
  ie_id = ie.number;
  ie_length = ie.len;
  pen = ie.pen;
}

-- The octets that wire_template writes for an element are read as the element's enterprise bit,
-- number, length and enterprise number, whatever follows, and nothing more is read.
pub decode_field-field_octets :
    (ie : InfoElement) (rest : List ℕ)
    → IsCodable ie
    → decode_field (field_octets ie ++ rest) ≡ some (field_spec ie, rest)
unfolding decode_field decode_enterprise encode16 encode32
decode_field-field_octets ie rest v =
    let bit : (or_enterprise_bit ie.number ≡ ie.number + 2 ^ 15) = ground (arith, v.number_small) in
    ground (
      arith,
      bit,
      decode_uint16-encode16 ie.number (omega (arith, v.number_small)),
      decode_uint16-encode16 (ie.number + 2 ^ 15) (omega (arith, v.number_small)),
      decode_uint16-encode16 ie.len v.len_small,
      decode_uint32-encode32 ie.pen v.pen_small,
      v.number_small,
    )

-- The handler knows the element: looking it up gives the element, and changes nothing.
abbrev pub Knows : InfoModel → InfoElement → Type 0
Knows m ie = lookup_ie m ie.pen ie.number ie.len ≡ some (ie, m)

abbrev pub add_all : IeTemplate → List InfoElement → IeTemplate
add_all t [] = t
add_all t (ie ∷ ies) = add_all (Template.add t ie) ies

-- The handler after the fields of some elements.
abbrev pub fields_done : IeTemplate → List InfoElement → Handler → Handler
fields_done t ies h = record h {
  current_wire_template = some (add_all t ies);
  current_field_no = h.current_field_no + length ies;
}

handle_field-Knows :
    (ie : InfoElement) (t : IeTemplate) (h : Handler)
    → Knows h.info_model ie
    → h.current_wire_template ≡ some t
    → h.current_field_no < h.current_field_count
    → h.current_field_count < 2 ^ 16
    → handle_field false (field_spec ie) h
      ≡ return_ok (record h {
        current_wire_template = some (Template.add t ie);
        current_field_no = h.current_field_no + 1;
      })
unfolding handle_field field_specifier field_element add_field
handle_field-Knows ie t h k c l s = ground (arith)

-- The fields of elements that the handler knows are taken in order, up to what follows them.
pub process_fields-all_octets :
    (ies : List InfoElement) (rest : List ℕ) (t : IeTemplate) (h : Handler)
    → All IsCodable ies
    → All (Knows h.info_model) ies
    → h.current_wire_template ≡ some t
    → h.current_field_no + length ies ≤ h.current_field_count
    → h.current_field_count < 2 ^ 16
    → process_fields (length ies) false (all_octets ies ++ rest) h
      ≡ return_ok (fields_done t ies h, rest)
unfolding process_fields
process_fields-all_octets [] rest t h v k c l s = ground (arith)
process_fields-all_octets (ie ∷ ies) rest t h v k c l s =
    let next : Handler = record h {
      current_wire_template = some (Template.add t ie);
      current_field_no = h.current_field_no + 1;
    } in
    let one = handle_field-Knows ie t h k.0 c (omega (arith, l)) s in
    let others =
      process_fields-all_octets ies rest (Template.add t ie) next v.1 k.1 refl (omega (arith, l))
        s in
    ground (
      arith,
      append_assoc (field_octets ie) (all_octets ies) rest,
      decode_field-field_octets ie (all_octets ies ++ rest) v.0,
      one,
      others,
    )
