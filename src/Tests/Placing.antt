-- ===== src/Tests/Placing.antt =====
-- PlacementExporter::place_values: the theorems at concrete inputs.
use libfc.Placement.Laid.{IsLaid, register_placement-IsLaid}
use libfc.Placement.Template.{is_placed}
use libfc.Placement.Template
use libfc.Tests.Data.{placed_number, source_address, user_name}
use libfc.Exporter.Sent.{announced, sent_message, place_all-parse}
use libfc.Exporter.Session.{IsPlaceable, place_all, all_size, Arrive}
use libfc.Tests.Templates.{placed_both-IsPlain}
use libfc.Tests.Data.{recorder}
use libfc.Octets.{Memory}
use libfc.Prelude.{All}
use libfc.Exporter.Flush.{flush}
use libfc.Errors.{◌>=>◌}
use libfc.Ipfix.Source.{buffer, buffer_source}
use libfc.Ipfix.Parser.{parse}
use libfc.Ipfix.Stream.{deliver_messages}
use libfc.Prelude.{ℕ, ◌+◌, ◌%◌, ◌^◌, ◌≡◌, arith, refl, List, [], ◌∷◌, ok, some, true, ◌≤◌}
use libfc.Wire.{encode16, encode32}
use libfc.Exporter.State.{Exporter}
use libfc.Exporter.Place.{place_values, Context}
use libfc.Exporter.Message.{IsBalanced}
use libfc.Exporter.Balance.{with_record, place_values-IsBalanced}
use libfc.RoundTrip.Record.{deliver}
use libfc.RoundTrip.Room.{record_size}
use libfc.Decode.Execute.{execute}
use libfc.Tests.Records.{sending, taking, paired}
use libfc.Placement.Template.{register_placement, assign, lookup_placement}
use libfc.Info.Types.{matches}
use libfc.Prelude.{length, ◌++◌}
use libfc.Tests.Data.{machine, target, placed_both, sent}
use libfc.Tests.Exports.{template, open_set, full, context}
use libfc.Exporter.First.{IsCounted, with_set, place_values-first}
use libfc.Exporter.State.{exporter, contains}
use libfc.Placement.Form.{form}
use libfc.Placement.Wire.{wire_template, compute_wire, emit_fields, emit_field, emit, fields_size}
use libfc.Encode.Plan
use libfc.Encode.Plan.{encode_plan}
use libfc.Prelude.{inl, length}

-- The template of the number and the string, with the same wire form, and its plan.
abbrev for_both : Exporter
for_both = record full {
  templates = λ a. record placed_both {
    buf = template.buf;
    size = template.size;
    template_id = template.template_id;
  };
  plan = some sending;
}

for_both-IsBalanced : IsBalanced for_both open_set []
unfolding encode16
for_both-IsBalanced = record {
  sets = refl;
  opened = omega arith;
  counted = refl;
  announced = refl;
  computed = ((_, refl), tt);
}

placed_number-IsLaid : IsLaid placed_number
unfolding is_placed
placed_number-IsLaid =
    register_placement-IsLaid Template.empty source_address 100 0
      (record { fixed = refl; varlen = refl }) tt refl tt

placed_both-IsLaid : IsLaid placed_both
unfolding register_placement assign is_placed matches
placed_both-IsLaid =
    register_placement-IsLaid placed_number user_name 200 0 placed_number-IsLaid
      (λ (e : 2 ≡ 1). omega arith, tt) refl (refl, tt)

for_both-IsLaid : IsLaid (for_both.templates 1)
for_both-IsLaid = record { fixed = placed_both-IsLaid.fixed; varlen = placed_both-IsLaid.varlen }

for_both_planned : encode_plan true (for_both.templates 1) ≡ ok sending
unfolding encode_plan Plan.decide_all Plan.decide Plan.decide_at Plan.encode_decision Plan.reduced
    Plan.octets_decision Plan.other_decision Plan.encode_fixlen_maybe_endianness register_placement
    assign lookup_placement matches
for_both_planned = refl

place_values-IsBalanced_example :
    (w : List ℕ) × (place_values context 1 for_both ≡ ok (with_record for_both 1 w open_set []))
    × (length w ≡ record_size sending sent)
    × IsBalanced (with_record for_both 1 w open_set []) (open_set ++ w) []
    × ((rest : List ℕ)
        → execute machine taking (w ++ rest) target
          ≡ ok (record_size sending sent, deliver sending taking sent target))
place_values-IsBalanced_example =
    place_values-IsBalanced machine true context 1 sending taking target for_both open_set []
      for_both-IsBalanced refl refl paired for_both-IsLaid for_both_planned (omega arith)
      (omega arith)

abbrev fresh : Exporter
fresh = exporter (λ a. placed_both) 5

fresh-IsCounted : IsCounted fresh []
unfolding exporter
fresh-IsCounted = record {
  finishes = inl (refl, refl);
  counted = refl;
  announced = refl;
  computed = tt;
}

both_computed :
    wire_template (fresh.templates 1) ((fresh.current_template_id + 1) % 2 ^ 16)
    ≡ ok (announced placed_both)
unfolding exporter wire_template compute_wire emit_fields emit_field emit fields_size encode16
    encode32 register_placement assign
both_computed = refl

both_planned : encode_plan true (announced placed_both) ≡ ok sending
unfolding encode_plan Plan.decide_all Plan.decide Plan.decide_at Plan.encode_decision Plan.reduced
    Plan.octets_decision Plan.other_decision Plan.encode_fixlen_maybe_endianness register_placement
    assign lookup_placement matches
both_planned = refl

fresh_room : 16 + (record_size sending sent + 4 + (announced placed_both).size + 4) ≤ 65535
unfolding register_placement assign encode16 encode32
fresh_room = omega arith

place_values-first_example :
    (w : List ℕ) × (place_values context 1 fresh
      ≡ ok (with_set fresh 1 (announced placed_both) sending w []))
    × (length w ≡ record_size sending sent)
    × IsBalanced (with_set fresh 1 (announced placed_both) sending w []) (0 ∷ 0 ∷ 0 ∷ 0 ∷ w) []
    × ((rest : List ℕ)
        → execute machine taking (w ++ rest) target
          ≡ ok (record_size sending sent, deliver sending taking sent target))
unfolding exporter contains
place_values-first_example =
    place_values-first machine context 1 (announced placed_both) (form 256 placed_both.ies) sending
      taking target fresh [] fresh-IsCounted refl refl refl both_computed refl refl both_planned
      paired placed_both-IsLaid fresh_room fresh_room

-- Two records.
abbrev records : List (Context × Memory)
records = (context, target) ∷ (context, target) ∷ []

two-IsPlaceable : All (IsPlaceable machine sending taking 65535) records
two-IsPlaceable = ((paired, omega arith), ((paired, omega arith), tt))

two_room : 24 + length (form 256 placed_both.ies) + all_size machine sending taking records ≤ 65535
unfolding register_placement assign encode16 encode32
two_room = omega arith

place_all-parse_example :
    (e e' : Exporter) × (bytes : List ℕ) × (ws : List (List ℕ)) × (place_all records 1 fresh ≡ ok e)
    × (flush (some 9) e ≡ ok e')
    × (e'.written ≡ bytes ∷ [])
    × (parse buffer_source recorder 2 (buffer bytes) []
        ≡ recorder.start_session []
          >=> deliver_messages recorder (sent_message placed_both 9 5 ws ∷ []))
    × Arrive machine sending taking records ws
place_all-parse_example =
    place_all-parse machine sending taking recorder [] (λ a. placed_both) 5 1 9 65535 context target
      ((context, target) ∷ []) placed_both-IsPlain both_planned placed_both-IsLaid two-IsPlaceable
      two_room (omega arith) (omega arith) (omega arith)
