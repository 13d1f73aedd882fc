-- ===== src/Tests/Collectors.antt =====
-- The theorems on the C interface at concrete inputs.
use libfc.Prelude.{◌≡◌, arith, refl, [], ◌∷◌, undefined}
use libfc.Wire.{encode16}
use libfc.Ipfix.Source.{buffer, buffer_source}
use libfc.Ipfix.Stream.{Message, IsSmall, all_messages}
use libfc.Collector.Base.{ipfix, collect}
use libfc.Collector.Binding.{Callbacks, pos, new_binding}
use libfc.Collector.Unhandled.{new_binding-IsFresh, collect_unknown}
use libfc.Tests.Data.{handler, target, machine}

abbrev one_data_set : Message
one_data_set = record {
  export_time = 1;
  sequence_number = 7;
  observation_domain = 5;
  sets = (256, 3 ∷ []) ∷ [];
}

abbrev accept : Callbacks
accept t memory = (pos 1, memory)

one_data_set-IsSmall : IsSmall one_data_set
unfolding encode16
one_data_set-IsSmall = record {
  length_small = omega arith;
  time_small = omega arith;
  sequence_small = omega arith;
  domain_small = omega arith;
  sets_small = ((omega arith, omega arith), tt);
}

collect_unknown_example :
    collect machine buffer_source 2 0
      (buffer (all_messages (one_data_set ∷ [])))
      (new_binding ipfix accept handler.info_model target)
    ≡ undefined
collect_unknown_example =
    collect_unknown machine accept (new_binding ipfix accept handler.info_model target) one_data_set
      [] 256 (3 ∷ []) [] 2 0 (new_binding-IsFresh accept handler.info_model target) refl
      (omega arith) (one_data_set-IsSmall, tt) (omega arith)
