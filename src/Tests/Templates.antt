-- ===== src/Tests/Templates.antt =====
-- The theorems on templates at concrete inputs.
use libfc.Prelude.{
  ◌≢◌, ℕ, ◌≡◌, arith, refl, List, [], ◌∷◌, ◌++◌, ok, some, true, false, aborted, length,
}
use libfc.Wire.{encode16}
use libfc.Errors.{return_ok}
use libfc.Info.Types.{InfoElement}
use libfc.Info.Template as WireTemplate
use libfc.Info.Template.{IeTemplate}
use libfc.Info.Model.{lookup_ie, find_ie, for_len}
use libfc.Placement.Template
use libfc.Placement.Template.{PlacementTemplate, register_placement, assign}
use libfc.Placement.Wire.{wire_template, fields_size}
use libfc.Placement.Form.{
  IsPlain, IsFresh, form, field_octets, register_placement-IsPlain, wire_template-IsPlain,
}
use libfc.Handler.State.{Handler, MessageHeader, find_wire_template, start_message, end_message}
use libfc.Handler.Templates.{process_template_set, start_template_set, decode_field}
use libfc.Handler.Fields.{IsCodable, Knows, field_spec, decode_field-field_octets}
use libfc.Handler.Learn.{IsRecord, forms}
use libfc.Handler.Lookup.{
  Agrees, latest, process_template_set_lem, wire_template-process_template_set,
}
use libfc.Handler.Total.{Runs, process_template_set-Runs}
use libfc.Handler.Truncated.{start_template_set_truncated}
use libfc.Tests.Data.{handler, elements, source_address, user_name, placed_number, placed_both}

source-IsCodable : IsCodable source_address
source-IsCodable = record {
  number_small = omega arith;
  len_small = omega arith;
  pen_small = omega arith;
}

user-IsCodable : IsCodable user_name
user-IsCodable = record {
  number_small = omega arith;
  len_small = omega arith;
  pen_small = omega arith;
}

source_known : Knows handler.info_model source_address
unfolding lookup_ie find_ie for_len
source_known = refl

user_known : Knows handler.info_model user_name
unfolding lookup_ie find_ie for_len
user_known = refl

both-IsRecord : IsRecord handler.info_model (256, elements)
both-IsRecord = record {
  id_small = omega arith;
  count_small = omega arith;
  codable = (source-IsCodable, (user-IsCodable, tt));
  known = (source_known, (user_known, tt));
}

-- A record without fields.
none-IsRecord : IsRecord handler.info_model (257, [])
none-IsRecord = record {
  id_small = omega arith;
  count_small = omega arith;
  codable = tt;
  known = tt;
}

one-IsRecord : IsRecord handler.info_model (257, source_address ∷ [])
one-IsRecord = record {
  id_small = omega arith;
  count_small = omega arith;
  codable = (source-IsCodable, tt);
  known = (source_known, tt);
}

empty-IsPlain : IsPlain Template.empty
unfolding fields_size
empty-IsPlain = record { counted = refl; sized = refl; pending = refl }

placed_number-IsFresh : IsFresh user_name.address placed_number.placements
unfolding register_placement assign
placed_number-IsFresh = (λ (e : 2 ≡ 1). omega arith, tt)

pub placed_both-IsPlain : IsPlain placed_both
placed_both-IsPlain =
    register_placement-IsPlain placed_number user_name 200 0
      (register_placement-IsPlain Template.empty source_address 100 0 empty-IsPlain tt)
      placed_number-IsFresh

register_placement-IsPlain_example : IsPlain (register_placement placed_number user_name 200 0)
register_placement-IsPlain_example =
    register_placement-IsPlain placed_number user_name 200 0
      (register_placement-IsPlain Template.empty source_address 100 0 empty-IsPlain tt)
      placed_number-IsFresh

wire_template-IsPlain_example :
    wire_template placed_both 256
    ≡ ok (record placed_both {
      buf = some (form 256 placed_both.ies);
      size = length (form 256 placed_both.ies);
      template_id = 256;
    })
wire_template-IsPlain_example =
    wire_template-IsPlain placed_both 256 placed_both-IsPlain (λ (e : 256 ≡ 0). omega arith)

placed_both-IsRecord : IsRecord handler.info_model (256, placed_both.ies)
unfolding register_placement
placed_both-IsRecord = both-IsRecord

placed_both-filled : placed_both.ies ≢ []
unfolding register_placement
placed_both-filled = λ (e : placed_both.ies ≡ []). cc

wire_template-process_template_set_example :
    (t' : PlacementTemplate) × (bytes : List ℕ) × (h' : Handler) × (w : IeTemplate) × (wire_template
        placed_both 256
      ≡ ok t')
    × (t'.buf ≡ some bytes)
    × (process_template_set false bytes handler ≡ return_ok h')
    × (find_wire_template h' 256 ≡ some w)
    × (WireTemplate.same w.ies placed_both.ies ≡ true)
wire_template-process_template_set_example =
    wire_template-process_template_set placed_both 256 handler placed_both-IsPlain
      (λ (e : 256 ≡ 0). omega arith) placed_both-IsRecord placed_both-filled refl

abbrev records : List (ℕ × List InfoElement)
records = (256, elements) ∷ (257, source_address ∷ []) ∷ (257, []) ∷ []

process_template_set_lem_example :
    (h' : Handler) × (process_template_set false (forms records) handler ≡ return_ok h')
    × Agrees (latest records 257) (find_wire_template handler 257) (find_wire_template h' 257)
process_template_set_lem_example =
    process_template_set_lem records 257 handler
      (both-IsRecord, (one-IsRecord, (none-IsRecord, tt))) refl (omega arith) (omega arith)

decode_field-field_octets_example :
    decode_field (field_octets user_name ++ (1 ∷ [])) ≡ some (field_spec user_name, 1 ∷ [])
decode_field-field_octets_example = decode_field-field_octets user_name (1 ∷ []) user-IsCodable

process_template_set-Runs_example : Runs (process_template_set true (1 ∷ 2 ∷ 3 ∷ []) handler)
process_template_set-Runs_example = process_template_set-Runs true (1 ∷ 2 ∷ 3 ∷ []) handler

abbrev header : MessageHeader
header = record {
  version = 10;
  length = 20;
  export_time = 0;
  sequence_number = 0;
  observation_domain = 5;
  base_time = 0;
}

start_template_set_truncated_example :
    (h' : Handler) × (start_template_set (encode16 256 ++ encode16 1 ++ (0 ∷ [])) handler
      ≡ return_ok h')
    × (end_message h' ≡ aborted)
    × (start_message header h' ≡ aborted)
start_template_set_truncated_example =
    start_template_set_truncated 256 1 (0 ∷ []) header handler (omega arith) (omega arith)
      (omega arith) (omega arith) refl
