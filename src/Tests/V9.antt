-- ===== src/Tests/V9.antt =====
-- The theorems on NetFlow v9 at concrete inputs.
use libfc.Prelude.{◌≡◌, arith, refl, [], ◌∷◌, ◌++◌, exhausted}
use libfc.Wire.{encode16}
use libfc.Errors.{return_ok, ◌>=>◌}
use libfc.Ipfix.Source.{buffer, buffer_source}
use libfc.V9.Parser.{parse}
use libfc.V9.Scan.{IsSetId}
use libfc.V9.Header.{Message, IsSmall, header_octets, all_messages}
use libfc.V9.Stream.{deliver_messages, parse_v9-all_messages}
use libfc.V9.Endless.{parse_endless}
use libfc.Tests.Data.{recorder}

abbrev v9_message : Message
v9_message = record {
  count = 2;
  uptime = 1000;
  export_time = 5;
  sequence_number = 7;
  source_id = 3;
  sets = (0, 1 ∷ 2 ∷ []) ∷ (256, 3 ∷ []) ∷ [];
}

-- The notes that a message leaves.
v9_delivered : deliver_messages recorder (v9_message ∷ []) [] ≡ return_ok (256 ∷ 0 ∷ 7 ∷ [])
v9_delivered = refl

zero-IsSetId : IsSetId 0
zero-IsSetId = record { small = omega arith; not_v9 = refl; not_v5 = refl }

data-IsSetId : IsSetId 256
data-IsSetId = record { small = omega arith; not_v9 = refl; not_v5 = refl }

v9_message-IsSmall : IsSmall 3 v9_message
unfolding encode16
v9_message-IsSmall = record {
  length_small = omega arith;
  uptime_small = omega arith;
  time_small = omega arith;
  sequence_small = omega arith;
  source_small = omega arith;
  sets_small = ((zero-IsSetId, omega arith), ((data-IsSetId, omega arith), tt));
  scan_enough = omega arith;
}

parse_v9-all_messages_example :
    parse buffer_source recorder 2 3 (buffer (all_messages (v9_message ∷ []))) []
    ≡ recorder.start_session [] >=> deliver_messages recorder (v9_message ∷ [])
parse_v9-all_messages_example =
    parse_v9-all_messages recorder (v9_message ∷ []) 2 3 [] (v9_message-IsSmall, tt) (omega arith)

parse_endless_example :
    parse buffer_source recorder 3 100
      (buffer (header_octets v9_message ++ (encode16 256 ++ (encode16 0 ++ (1 ∷ [])))))
      []
    ≡ exhausted
parse_endless_example = parse_endless recorder v9_message 256 2 100 (1 ∷ []) [] [] data-IsSetId refl
