-- ===== src/Tests/DataSets.antt =====
-- A data set of two records, at a handler with one placement template.
use libfc.Prelude.{
  ℕ, ◌+◌, ◌≡◌, refl, arith, List, [], ◌∷◌, ◌++◌, reverse, none, some, ok, length, All, ◌*◌,
}
use mathlib.Core.List.{flatten}
use libfc.Octets.{Memory, native, update}
use libfc.Info.Types.{matches}
use libfc.Info.Template.{IeTemplate, contains}
use libfc.Placement.Template.{register_placement, assign, lookup_placement, is_match, all_found}
use libfc.Decode.Plan.{
  Decision, transfer_fixlen_endianness, decode_plan, decide_all, decide, decide_at,
  transfer_decision, native_decision, transfer_fixlen_maybe_endianness, coalesce, coalesce_from,
  is_skip,
}
use libfc.Decode.Execute.{execute, run, step, transfer}
use libfc.RoundTrip.Field.{store_whole}
use libfc.Placement.Matched.{AreDistinctKeys}
use libfc.Prelude.{aborted}
use libfc.Placement.Template.{unmatched, is_placed}
use libfc.Handler.Data.{check_match}
use libfc.Handler.State.{Handler, Collector, find_wire_template, find_key, make_template_key}
use libfc.Handler.Data.{first_match, note_incomplete, wire_template_min_length, start_data_set}
use libfc.Handler.Records.{Reads, deliver_records, start_data_set-Reads}
use libfc.Tests.Data.{machine, handler, source_address, placed_number}

-- Its callbacks do nothing.
abbrev quiet : Collector
quiet = record {
  start_message = λ header m. (none, m);
  start_placement = λ t m. (none, m);
  end_placement = λ t m. (none, m);
  unhandled_data_set = λ domain id bytes m. (none, m);
}

abbrev wire_template : IeTemplate
wire_template = record { ies = source_address ∷ []; minlen = 4 }

abbrev ready : Handler
ready = record handler {
  wire_templates = (5 * 65536 + 256, wire_template) ∷ [];
  placement_templates = (1, placed_number, quiet) ∷ [];
}

abbrev plan : List Decision
plan = record { type = transfer_fixlen_endianness; length = 4; destination_size = 4; p = 100 } ∷ []

-- Four octets stand at 100.
abbrev Good : Memory → Type 0
Good m = (old : List ℕ) × (m 100 ≡ native old) × (length old ≡ 4)

abbrev effect : List ℕ → Memory → Memory
effect r m = update m 100 (native (reverse r ++ []))

four_octets-Reads :
    (a b c d : ℕ) → Reads machine placed_number quiet plan effect Good 4 (a ∷ b ∷ c ∷ d ∷ [])
unfolding execute run step transfer
four_octets-Reads a b c d = (
  omega arith,
  omega arith,
  λ m (old, e, l). (
    ground (arith, store_whole m 100 old (d ∷ c ∷ b ∷ a ∷ []) e (omega (arith, l))),
    (d ∷ c ∷ b ∷ a ∷ [], refl, refl),
  ),
)

found : find_wire_template ready 256 ≡ some wire_template
unfolding find_wire_template find_key make_template_key
found = refl

matched : first_match ready.placement_templates wire_template.ies ≡ some (placed_number, quiet)
unfolding first_match is_match all_found contains matches register_placement assign
matched = refl

keys_distinct : AreDistinctKeys placed_number.placements
unfolding register_placement assign
keys_distinct = (tt, tt)

planned : decode_plan machine placed_number wire_template.ies ≡ ok plan
unfolding decode_plan decide_all decide decide_at transfer_decision native_decision
    transfer_fixlen_maybe_endianness coalesce coalesce_from is_skip lookup_placement matches
    register_placement assign
planned = refl

abbrev records : List (List ℕ)
records = (1 ∷ 2 ∷ 3 ∷ 4 ∷ []) ∷ (5 ∷ 6 ∷ 7 ∷ 8 ∷ []) ∷ []

records-Reads :
    All
      (Reads machine placed_number quiet plan effect Good
        (wire_template_min_length wire_template.ies))
      records
unfolding wire_template_min_length
records-Reads = (four_octets-Reads 1 2 3 4, (four_octets-Reads 5 6 7 8, tt))

start_data_set-Reads_example :
    start_data_set machine 256 (flatten records) ready
    ≡ deliver_records machine placed_number quiet plan effect Good records
        (note_incomplete 256 placed_number wire_template.ies ready)
start_data_set-Reads_example =
    start_data_set-Reads machine placed_number quiet plan effect Good wire_template 256 records
      ready ((λ m g. g), (λ m g. g)) (_, refl, refl) found matched keys_distinct (tt, tt) planned
      records-Reads

-- An element that the wire template lists twice makes an assertion fail.
listed_twice : check_match placed_number (source_address ∷ source_address ∷ []) ≡ aborted
unfolding check_match is_match all_found contains matches register_placement assign unmatched
    is_placed
listed_twice = refl
