-- ===== src/Exporter/Balance.antt =====
-- PlacementExporter::place_values for a further record of the current template.
use libfc.Prelude.{
  ℕ, ◌+◌, ◌≡◌, ◌≤◌, refl, arith, ap, ◌∙◌, List, ◌∷◌, ◌++◌, some, ok, ltb, leb, length,
  length-append, le→leb, le→not_ltb, true, false, map, if◌then◌else◌,
}
use libfc.Octets.{Memory}
use libfc.Placement.Laid.{IsLaid}
use libfc.Encode.Plan.{encode_plan}
use libfc.RoundTrip.Sized.{data_record_size-record_size}
use libfc.Prelude.{Bool}
use libfc.Encode.Plan
use libfc.Decode.Plan.{Machine, Decision}
use libfc.Decode.Execute.{execute}
use libfc.RoundTrip.Record.{AllPaired, deliver}
use libfc.RoundTrip.Room.{record_size, record_round_trip}
use libfc.Exporter.State.{Exporter, contains, insert}
use libfc.Exporter.Place.{
  Context, is_current, place_values, make_room, make_data_set, finish_record, write_record,
}
use libfc.Exporter.Message.{IsBalanced, total}
use libfc.Ipfix.Sets.{set_octets}

-- The exporter after a record `w` for the template at `a`.
abbrev pub with_record : Exporter → ℕ → List ℕ → List ℕ → List (ℕ × List ℕ) → Exporter
with_record e a w open_set framed = record e {
  n_message_octets = e.n_message_octets + length w;
  used_templates =
      if contains e.used_templates a then e.used_templates else insert a e.used_templates;
  data_sets = (open_set ++ w) ∷ map set_octets framed;
  current_template = some a;
}

with_record-IsBalanced :
    (e : Exporter) (a : ℕ) (w open_set : List ℕ) (framed : List (ℕ × List ℕ))
    → IsBalanced e open_set framed
    → IsBalanced (with_record e a w open_set framed) (open_set ++ w) framed
with_record-IsBalanced e a w open_set framed v = record {
  sets = refl;
  opened = omega (arith, v.opened, length-append open_set w);
  counted = omega (arith, v.counted, ap total v.sets, length-append open_set w);
  announced = v.announced;
  computed = v.computed;
}

-- A further record for the current template is placed, if the exporter's count of octets agrees
-- with what is to be written, the plan is the one made for the template, its decisions have
-- partners to decode, the sums that the template keeps of its sizes are those of its elements, as
-- registration leaves them where no two elements have the same enterprise and number, and there
-- is room in the message: place_values succeeds, the record stands behind the open data set, as
-- long as its values take on the wire, the count of octets still agrees with what is to be
-- written, and DecodePlan::execute at the record gives the values back, whatever follows.
pub place_values-IsBalanced :
    (c : Machine) (le : Bool) (x : Context) (a : ℕ) (es : List Plan.Decision) (ds : List Decision)
    (m2 : Memory) (e : Exporter) (open_set : List ℕ) (framed : List (ℕ × List ℕ))
    → IsBalanced e open_set framed
    → e.current_template ≡ some a
    → e.plan ≡ some es
    → AllPaired es ds x.memory m2
    → IsLaid (e.templates a)
    → encode_plan le (e.templates a) ≡ ok es
    → e.n_message_octets + record_size es x.memory ≤ x.preferred
    → e.n_message_octets + record_size es x.memory ≤ 65535
    → (w : List ℕ) × (place_values x a e ≡ ok (with_record e a w open_set framed))
      × (length w ≡ record_size es x.memory)
      × IsBalanced (with_record e a w open_set framed) (open_set ++ w) framed
      × ((rest : List ℕ)
          → execute c ds (w ++ rest) m2 ≡ ok (record_size es x.memory, deliver es ds x.memory m2))
unfolding place_values make_room finish_record make_data_set write_record
place_values-IsBalanced c le x a es ds m2 e open_set framed v cur planned paired laid made preferred
      fits =
    let size =
      data_record_size-record_size le (e.templates a) es ds x.memory m2 laid made paired
        (omega (arith, fits)) in
    let octets = e.n_message_octets in
    let n = record_size es x.memory in
    let known = v.counted ∙ ap (λ ls. 16 + e.template_set_size + total ls) v.sets in
    let (w, written, long, back) =
      record_round_trip c x.double_to_float 65535 es ds x.memory m2 open_set (omega arith)
        (omega (arith, known)) paired (omega (arith, known)) in
    let before : leb octets 65535 ≡ true = le→leb _ _ (omega (arith, fits)) in
    let after : leb (octets + n) 65535 ≡ true = le→leb _ _ fits in
    let stays : ltb x.preferred (octets + n + 0) ≡ false =
      le→not_ltb _ _ (omega (arith, preferred)) in
    let current : is_current e.current_template a ≡ true = ground (arith, cur) in
    (
      w,
      ground (arith, before, after, stays, current, size, planned, v.sets, written, long),
      long,
      with_record-IsBalanced e a w open_set framed v,
      back,
    )
