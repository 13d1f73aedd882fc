-- ===== src/Tests/Streams.antt =====
-- Runs of the parser, and its theorems at concrete inputs.
use libfc.Prelude.{◌≡◌, arith, refl, [], ◌∷◌, ◌≤◌}
use libfc.Wire.{encode16}
use libfc.Errors.{return_ok, ◌>=>◌}
use libfc.Octets.{copy_content, content}
use libfc.Octets.Array.{IsValid, content-copy_content}
use libfc.Ipfix.Source.{buffer, buffer_source}
use libfc.Ipfix.Sets.{all_sets, deliver_all, parse_sets-all_sets}
use libfc.Ipfix.Stream.{all_messages, deliver_messages, parse-all_messages, IsSmall}
use libfc.Ipfix.Parser.{ipfix_set_ids, parse_sets, parse}
use libfc.Tests.Data.{recorder, two_sets, two_messages, some_octets}

-- The notes that two messages leave.
delivered : deliver_messages recorder two_messages [] ≡ return_ok (8 ∷ 256 ∷ 2 ∷ 7 ∷ [])
delivered = refl

first-IsSmall :
    IsSmall
      (record { export_time = 1; sequence_number = 7; observation_domain = 5; sets = two_sets })
unfolding encode16
first-IsSmall = record {
  length_small = omega arith;
  time_small = omega arith;
  sequence_small = omega arith;
  domain_small = omega arith;
  sets_small = ((omega arith, omega arith), ((omega arith, omega arith), tt));
}

second-IsSmall :
    IsSmall (record { export_time = 2; sequence_number = 8; observation_domain = 5; sets = [] })
second-IsSmall = record {
  length_small = omega arith;
  time_small = omega arith;
  sequence_small = omega arith;
  domain_small = omega arith;
  sets_small = tt;
}

parse-all_messages_example :
    parse buffer_source recorder 3 (buffer (all_messages two_messages)) []
    ≡ recorder.start_session [] >=> deliver_messages recorder two_messages
parse-all_messages_example =
    parse-all_messages recorder two_messages 3 [] (first-IsSmall, (second-IsSmall, tt))
      (omega arith)

parse_sets-all_sets_example :
    parse_sets ipfix_set_ids recorder 2 (all_sets two_sets) []
    ≡ deliver_all ipfix_set_ids recorder two_sets []
parse_sets-all_sets_example =
    parse_sets-all_sets ipfix_set_ids recorder two_sets 2 []
      ((omega arith, omega arith), ((omega arith, omega arith), tt)) (omega arith)

content-copy_content_example :
    IsValid (copy_content some_octets (7 ∷ []))
    × (content (copy_content some_octets (7 ∷ [])) ≡ 7 ∷ [])
    × (some_octets.capacity ≤ (copy_content some_octets (7 ∷ [])).capacity)
content-copy_content_example =
    content-copy_content some_octets (7 ∷ []) (record { allocated = refl; within = omega arith })
