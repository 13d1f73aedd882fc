-- ===== src/Tests/Records.antt =====
-- Data records: the theorems at concrete inputs.
use libfc.Prelude.{
  ℕ, ◌≡◌, ◌≢◌, ◌≤◌, arith, refl, List, [], ◌∷◌, ◌++◌, ok, true, undefined, length, length-append,
  reverse, inl,
}
use libfc.Info.Types.{unsigned32, ipv6_address, matches}
use libfc.Octets.{Memory, native, update}
use libfc.Placement.Template.{register_placement, assign, lookup_placement}
use libfc.Encode.Plan
use libfc.Encode.Plan.{
  encode_decision, encode_none, encode_fixlen_octets, encode_varlen, encode_double_as_float,
  encode_double_as_float_endianness, encode_fixlen_endianness,
}
use libfc.Encode.Execute
use libfc.Encode.Execute.{encode}
use libfc.Decode.Plan.{
  Decision, skip_fixlen, transfer_varlen, transfer_fixlen_endianness, transfer_decision,
  other_decision, address_decision, octets_decision, native_decision,
  transfer_fixlen_maybe_endianness, decode_plan, decide_all, decide, decide_at, coalesce,
  coalesce_from, is_skip, transfer_fixlen,
}
use libfc.Decode.Execute.{execute, run, step, transfer}
use libfc.Decode.Coalesce.{execute-coalesce}
use libfc.Decode.Locality.{execute_local}
use libfc.Decode.Typed.{AllHold, execute-decode_plan_defined}
use libfc.RoundTrip.Field.{Pair}
use libfc.RoundTrip.Record.{AllPaired, deliver}
use libfc.RoundTrip.Room.{record_size, record_round_trip}
use libfc.RoundTrip.Agree.{decisions_agree}
use libfc.RoundTrip.Mismatch.{double_as_float_unreachable, ipv6_arrives_reversed}
use libfc.Tests.Data.{machine, sent, target, elements, placed_both}

-- Plans for the two elements.
abbrev send_number : Plan.Decision
send_number = record {
  type = encode_fixlen_endianness;
  address = 100;
  unencoded_length = 4;
  encoded_length = 4;
}

abbrev send_string : Plan.Decision
send_string = record {
  type = encode_varlen;
  address = 200;
  unencoded_length = 0;
  encoded_length = 0;
}

abbrev take_number : Decision
take_number = record {
  type = transfer_fixlen_endianness;
  length = 4;
  destination_size = 4;
  p = 100;
}

abbrev take_string : Decision
take_string = record { type = transfer_varlen; length = 8; destination_size = 8; p = 200 }

abbrev skip : ℕ → Decision
skip n = record { type = skip_fixlen; length = n; destination_size = 8; p = 8 }

abbrev pub sending : List Plan.Decision
sending = send_number ∷ send_string ∷ []

abbrev pub taking : List Decision
taking = take_number ∷ take_string ∷ []

abbrev wire : List ℕ
wire = 4 ∷ 3 ∷ 2 ∷ 1 ∷ 3 ∷ 104 ∷ 105 ∷ 33 ∷ []

sent_record : Execute.execute (λ bytes. bytes) 100 sending sent [] ≡ ok (8, wire)
unfolding Execute.execute Execute.run encode Execute.load Execute.room Execute.load_octets
    Execute.varlen_prefix
sent_record = refl

pub paired : AllPaired sending taking sent target
paired = ((refl, refl, omega arith), omega arith, (refl, refl), (tt, tt, omega arith, tt))

record_round_trip_example :
    (w : List ℕ) × (Execute.execute (λ bytes. bytes) 100 sending sent []
      ≡ ok (record_size sending sent, [] ++ w))
    × (length w ≡ record_size sending sent)
    × ((rest : List ℕ)
        → execute machine taking (w ++ rest) target
          ≡ ok (record_size sending sent, deliver sending taking sent target))
record_round_trip_example =
    record_round_trip machine (λ bytes. bytes) 100 sending taking sent target [] (omega arith)
      (omega arith) paired (omega arith)

abbrev skips : List Decision
skips = skip 2 ∷ skip 3 ∷ []

skipped : execute machine skips (1 ∷ 2 ∷ 3 ∷ 4 ∷ 5 ∷ 6 ∷ []) target ≡ ok (5, target)
unfolding execute run step transfer
skipped = refl

-- The two skips are one.
joined : coalesce skips ≡ skip 5 ∷ []
unfolding coalesce coalesce_from is_skip
joined = refl

execute-coalesce_example :
    execute machine (coalesce skips) (1 ∷ 2 ∷ 3 ∷ 4 ∷ 5 ∷ 6 ∷ []) target ≡ ok (5, target)
execute-coalesce_example =
    execute-coalesce machine skips (1 ∷ 2 ∷ 3 ∷ 4 ∷ 5 ∷ 6 ∷ []) target 5 target (omega arith)
      skipped

execute_local_example :
    (5 ≤ 6)
    × (5 ≤ 65535)
    × (execute machine skips ((1 ∷ 2 ∷ 3 ∷ 4 ∷ 5 ∷ 6 ∷ []) ++ (7 ∷ [])) target ≡ ok (5, target))
execute_local_example =
    execute_local machine skips (1 ∷ 2 ∷ 3 ∷ 4 ∷ 5 ∷ 6 ∷ []) (7 ∷ []) target 5 target skipped

widening : (bytes : List ℕ) → length bytes ≡ 4 → length (machine.float_to_double bytes) ≡ 8
widening bytes h = omega (arith, length-append bytes (0 ∷ 0 ∷ 0 ∷ 0 ∷ []))

both_hold : AllHold placed_both elements target
unfolding lookup_placement register_placement assign matches
both_hold = (omega arith, (tt, tt))

planned : decode_plan machine placed_both elements ≡ ok (take_number ∷ take_string ∷ [])
unfolding decode_plan decide_all decide decide_at lookup_placement register_placement assign matches
    transfer_decision other_decision octets_decision native_decision
    transfer_fixlen_maybe_endianness coalesce coalesce_from is_skip
planned = refl

execute-decode_plan_defined_example : execute machine taking wire target ≢ undefined
execute-decode_plan_defined_example =
    execute-decode_plan_defined machine placed_both elements taking wire target widening both_hold
      planned

number_encoded : encode_decision true unsigned32 100 4 ≡ ok send_number
unfolding encode_decision Plan.reduced Plan.encode_fixlen_maybe_endianness
number_encoded = refl

number_decoded : transfer_decision machine unsigned32 100 4 ≡ ok take_number
unfolding transfer_decision native_decision transfer_fixlen_maybe_endianness
number_decoded = refl

decisions_agree_example :
    Pair encode_fixlen_endianness transfer_fixlen_endianness send_number take_number
    × (send_number.address ≡ 100)
    × (take_number.p ≡ 100)
decisions_agree_example =
    decisions_agree machine unsigned32 100 100 4 send_number take_number (λ e. cc) (inl λ e. cc)
      number_encoded number_decoded

double_as_float_unreachable_example :
    (send_number.type ≢ encode_double_as_float)
    × (send_number.type ≢ encode_double_as_float_endianness)
double_as_float_unreachable_example =
    double_as_float_unreachable true unsigned32 100 4 send_number number_encoded

abbrev send_address : Plan.Decision
send_address = record {
  type = encode_fixlen_endianness;
  address = 1;
  unencoded_length = 16;
  encoded_length = 16;
}

abbrev take_address : Decision
take_address = record { type = transfer_fixlen; length = 16; destination_size = 16; p = 2 }

abbrev ipv6 : List ℕ
ipv6 = 32 ∷ 1 ∷ 13 ∷ 184 ∷ 0 ∷ 0 ∷ 0 ∷ 0 ∷ 0 ∷ 0 ∷ 0 ∷ 0 ∷ 0 ∷ 0 ∷ 0 ∷ 1 ∷ []

abbrev addresses : Memory
addresses p = native ipv6

address_encoded : encode_decision true ipv6_address 1 16 ≡ ok send_address
unfolding encode_decision Plan.other_decision Plan.exact Plan.encode_fixlen_maybe_endianness
address_encoded = refl

address_decoded : transfer_decision machine ipv6_address 2 16 ≡ ok take_address
unfolding transfer_decision other_decision address_decision
address_decoded = refl

address_sent :
    encode (λ bytes. bytes) 100 encode_fixlen_endianness send_address addresses []
    ≡ ok (reverse ipv6)
unfolding encode Execute.load Execute.room
address_sent = refl

ipv6_arrives_reversed_example :
    (reverse ipv6 ≡ [] ++ reverse ipv6)
    × ((rest : List ℕ)
        → transfer machine transfer_fixlen take_address (reverse ipv6 ++ rest) addresses
          ≡ ok (rest, update addresses 2 (native (reverse ipv6))))
ipv6_arrives_reversed_example =
    ipv6_arrives_reversed machine (λ bytes. bytes) 100 1 2 ipv6 ipv6 addresses addresses []
      (reverse ipv6) send_address take_address refl address_encoded address_decoded refl refl refl
      refl address_sent
