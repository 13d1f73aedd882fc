-- ===== src/Tests/Data.antt =====
-- A machine, elements, templates, memories and a handler.
use libfc.Prelude.{codes, ℕ, ◌==◌, true, List, [], ◌∷◌, ◌++◌, none, some, replicate, if◌then◌else◌}
use libfc.Errors.{return_ok}
use libfc.Info.Types.{InfoElement, unsigned32, string, ipfix_varlen}
use libfc.Octets.{Memory, BasicOctetArray, native, octets}
use libfc.Decode.Plan.{Machine}
use libfc.Placement.Template
use libfc.Placement.Template.{PlacementTemplate, register_placement}
use libfc.Handler.State.{Handler}
use libfc.Ipfix.Content.{ContentHandler}
use libfc.Ipfix.Stream.{Message}

-- Little-endian; a float widens by four octets.
abbrev pub machine : Machine
machine = record {
  little_endian = true;
  float_to_double = λ bytes. bytes ++ replicate 4 0;
  indeterminate = 8;
}

abbrev pub source_address : InfoElement
source_address = record {
  address = 1;
  name = codes "sourceAddress";
  pen = 0;
  number = 8;
  ietype = some unsigned32;
  len = 4;
}

-- An enterprise-specific string.
abbrev pub user_name : InfoElement
user_name = record {
  address = 2;
  name = codes "userName";
  pen = 35566;
  number = 7;
  ietype = some string;
  len = ipfix_varlen;
}

abbrev pub elements : List InfoElement
elements = source_address ∷ user_name ∷ []

-- The number at 100, the string at 200.
abbrev pub placed_number : PlacementTemplate
placed_number = register_placement Template.empty source_address 100 0

abbrev pub placed_both : PlacementTemplate
placed_both = register_placement placed_number user_name 200 0

abbrev pub some_octets : BasicOctetArray
some_octets = record { buf = 104 ∷ 105 ∷ 33 ∷ 0 ∷ []; length = 3; capacity = 4 }

abbrev pub sent : Memory
sent p = if p == 200 then octets some_octets else native (1 ∷ 2 ∷ 3 ∷ 4 ∷ [])

abbrev pub target : Memory
target p =
    if p == 200
    then octets (record { buf = 9 ∷ []; length = 1; capacity = 1 })
    else native (0 ∷ 0 ∷ 0 ∷ 0 ∷ [])

abbrev pub handler : Handler
handler = record {
  observation_domain = 5;
  info_model = record { registry = elements; names = []; derived = []; next = 3 };
  wire_templates = [];
  placement_templates = [];
  start_message_handler = none;
  unhandled_data_set_handler = none;
  current_wire_template = none;
  current_template_id = 0;
  current_field_count = 0;
  current_field_no = 0;
  parse_is_good = true;
  incomplete_template_ids = [];
  unmatched_template_ids = [];
  memory = target;
}

-- A receiver that notes the IDs of the sets.
abbrev pub recorder : ContentHandler
recorder = record {
  State = List ℕ;
  start_session = return_ok;
  end_session = return_ok;
  start_message = λ header s. return_ok (header.sequence_number ∷ s);
  end_message = return_ok;
  start_template_set = λ id bytes s. return_ok (id ∷ s);
  end_template_set = return_ok;
  start_options_template_set = λ id bytes s. return_ok (id ∷ s);
  end_options_template_set = return_ok;
  start_data_set = λ id bytes s. return_ok (id ∷ s);
  end_data_set = return_ok;
}

abbrev pub two_sets : List (ℕ × List ℕ)
two_sets = (2, 1 ∷ 2 ∷ []) ∷ (256, 3 ∷ []) ∷ []

abbrev pub two_messages : List Message
two_messages =
    record { export_time = 1; sequence_number = 7; observation_domain = 5; sets = two_sets }
    ∷ record { export_time = 2; sequence_number = 8; observation_domain = 5; sets = [] }
    ∷ []
