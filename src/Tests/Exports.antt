-- ===== src/Tests/Exports.antt =====
-- The theorems on the exporter at concrete inputs.
use libfc.Prelude.{ℕ, ◌+◌, ◌%◌, ◌^◌, ◌≡◌, arith, refl, List, [], ◌∷◌, ok, some, aborted, true}
use libfc.Wire.{encode16}
use libfc.Errors.{◌>=>◌}
use libfc.Placement.Template.{PlacementTemplate}
use libfc.Placement.Size.{data_record_size, varlen_sizes}
use libfc.Exporter.State.{Exporter}
use libfc.Exporter.Flush.{flush}
use libfc.Exporter.Place.{Context, place_values}
use libfc.Exporter.Message.{IsBalanced, message, flush-message}
use libfc.Exporter.Again.{flush-parse, place_values-flush}
use libfc.Ipfix.Source.{buffer, buffer_source}
use libfc.Ipfix.Parser.{parse}
use libfc.Ipfix.Stream.{IsSmall, deliver_messages, all_messages}
use libfc.Tests.Data.{recorder, sent}

-- One template, new, with a made-up wire form, and a data set of four octets.
abbrev pub template : PlacementTemplate
template = record {
  placements = [];
  ies = [];
  varlen_ies = [];
  buf = some (1 ∷ 0 ∷ 0 ∷ 1 ∷ 0 ∷ 8 ∷ 0 ∷ 4 ∷ []);
  size = 8;
  fixlen_data_record_size = 4;
  template_id = 256;
}

abbrev pub open_set : List ℕ
open_set = 0 ∷ 0 ∷ 0 ∷ 0 ∷ 1 ∷ 2 ∷ 3 ∷ 4 ∷ []

abbrev pub full : Exporter
full = record {
  templates = λ a. template;
  current_template = some 1;
  current_template_id = 256;
  sequence_number = 6;
  observation_domain = 5;
  n_message_octets = 36;
  template_set_size = 12;
  plan = some [];
  data_sets = open_set ∷ [];
  used_templates = 1 ∷ [];
  new_templates = 1 ∷ [];
  written = [];
}

full-IsBalanced : IsBalanced full open_set []
unfolding encode16
full-IsBalanced = record {
  sets = refl;
  opened = omega arith;
  counted = refl;
  announced = refl;
  computed = ((_, refl), tt);
}

flush-message_example :
    flush (some 9) full
    ≡ ok (record full {
      sequence_number = (full.sequence_number + 1) % 2 ^ 32;
      n_message_octets = 16;
      template_set_size = 0;
      data_sets = [];
      new_templates = [];
      written = all_messages (message full 9 256 open_set [] ∷ []) ∷ [];
    })
flush-message_example = flush-message full 1 9 open_set [] full-IsBalanced refl

full-message-IsSmall : IsSmall (message full 9 256 open_set [])
unfolding encode16
full-message-IsSmall = record {
  length_small = omega arith;
  time_small = omega arith;
  sequence_small = omega arith;
  domain_small = omega arith;
  sets_small = ((omega arith, omega arith), ((omega arith, omega arith), tt));
}

flush-parse_example :
    (e' : Exporter) × (bytes : List ℕ) × (flush (some 9) full ≡ ok e')
    × (e'.written ≡ bytes ∷ [])
    × (parse buffer_source recorder 2 (buffer bytes) []
        ≡ recorder.start_session []
          >=> deliver_messages recorder (message full 9 256 open_set [] ∷ []))
flush-parse_example =
    flush-parse recorder [] full 1 9 open_set [] full-IsBalanced refl full-message-IsSmall

abbrev pub context : Context
context = record {
  memory = sent;
  now = some 9;
  preferred = 65535;
  little_endian = true;
  double_to_float = λ bytes. bytes;
}

abbrev flushed : Exporter
flushed = record full {
  sequence_number = (full.sequence_number + 1) % 2 ^ 32;
  n_message_octets = 16;
  template_set_size = 0;
  data_sets = [];
  new_templates = [];
  written = all_messages (message full 9 256 open_set [] ∷ []) ∷ [];
}

four_octets : data_record_size sent template ≡ ok 4
unfolding data_record_size varlen_sizes
four_octets = refl

place_values-flush_example : place_values context 1 flushed ≡ aborted
place_values-flush_example =
    place_values-flush context 9 1 4 full flushed (omega arith) refl flush-message_example
      four_octets (omega arith)
