-- ===== src/Exporter/First.antt =====
-- PlacementExporter::place_values for the first record of a template that the exporter has not used.
use libfc.Prelude.{
  ℕ, ◌+◌, ◌%◌, ◌^◌, ◌≡◌, ◌≤◌, ◌<◌, ◌⊎◌, inl, inr, refl, arith, ap, ◌∙◌, Bool, List, [], ◌∷◌, ◌++◌,
  some, ok, ltb, leb, length, le→leb, le→not_ltb, lt→ltb, true, false, map, if◌then◌else◌, ==_refl,
  All, drop, ◌==◌, sym,
}
use libfc.Placement.Laid.{wire_template-IsLaid, IsLaid}
use libfc.RoundTrip.Sized.{data_record_size-record_size}
use libfc.Octets.{Memory}
use libfc.Placement.Template.{PlacementTemplate}
use libfc.Placement.Wire.{wire_template}
use libfc.Encode.Plan
use libfc.Encode.Plan.{encode_plan}
use libfc.Decode.Plan.{Machine, Decision}
use libfc.Decode.Execute.{execute}
use libfc.RoundTrip.Record.{AllPaired, deliver}
use libfc.RoundTrip.Room.{record_size, record_round_trip}
use libfc.Exporter.State.{Exporter, contains, insert, finish_current_data_set, finish_at}
use libfc.Exporter.Place.{
  Context, is_current, or_first, place_values, make_room, make_data_set, finish_record,
  write_record, switch_template, add_template,
}
use libfc.Exporter.Message.{IsBalanced, IsComputed, total, set_size, finish_set-set_octets}
use libfc.Exporter.Announced.{with_template, header_size, insert-AllComputed, set_size-insert}
use libfc.Ipfix.Sets.{set_octets}

-- The data sets as they stand when the last one is finished: none, or the open set is framed with the ID
-- of the current template.
abbrev pub Finishes : Exporter → List (ℕ × List ℕ) → Type 0
Finishes e framed =
    ((e.data_sets ≡ []) × (framed ≡ []))
    ⊎ ((c : ℕ) × (open_set : List ℕ) × (before : List (ℕ × List ℕ)) × (e.current_template ≡ some c)
        × (e.data_sets ≡ open_set ∷ map set_octets before)
        × (4 ≤ length open_set)
        × (framed ≡ ((e.templates c).template_id, drop 4 open_set) ∷ before))

-- The count of octets agrees with what there is to be written, and every new template has its wire form.
pub record IsCounted (e : Exporter) (framed : List (ℕ × List ℕ)) : Type 0 where
  pub finishes : Finishes e framed
  pub counted : e.n_message_octets ≡ 16 + e.template_set_size + total (map set_octets framed)
  pub announced : e.template_set_size ≡ set_size e.templates e.new_templates
  pub computed : All (λ a. IsComputed (e.templates a)) e.new_templates

-- The exporter after add_template.
abbrev pub with_new : Exporter → ℕ → PlacementTemplate → Exporter
with_new e a t = record e {
  templates = with_template e.templates a t;
  current_template_id = (e.current_template_id + 1) % 2 ^ 16;
  template_set_size = (e.template_set_size + header_size e.template_set_size + t.size) % 2 ^ 16;
  new_templates = insert a e.new_templates;
  current_template = or_first e.current_template a;
}

finish-Finishes :
    (e : Exporter) (a : ℕ) (t : PlacementTemplate) (framed : List (ℕ × List ℕ))
    → Finishes e framed
    → is_current e.current_template a ≡ false
    → finish_current_data_set (with_new e a t) e.data_sets ≡ ok (map set_octets framed)
unfolding finish_current_data_set finish_at
finish-Finishes e a t framed (inl (none_yet, empty)) h = ground (arith, none_yet, empty)
finish-Finishes e a t framed (inr (c, open_set, before, cur, sets, long, eq)) h =
    let other : (a == c) ≡ false = ground (arith, cur, h) in
    let filled : ltb 0 (length open_set) ≡ true = lt→ltb _ _ (omega (arith, long)) in
    let framing = finish_set-set_octets (e.templates c).template_id open_set long in
    ground (arith, cur, sets, eq, other, filled, framing)

-- The exporter after the record `w`, the first for the template at `a`.
abbrev pub with_set :
    Exporter → ℕ → PlacementTemplate → List Plan.Decision → List ℕ → List (ℕ × List ℕ) → Exporter
with_set e a t es w framed = record (with_new e a t) {
  n_message_octets = e.n_message_octets + (length w + header_size e.template_set_size + t.size + 4);
  plan = some es;
  data_sets = (0 ∷ 0 ∷ 0 ∷ 0 ∷ w) ∷ map set_octets framed;
  used_templates = insert a e.used_templates;
  current_template = some a;
}

with_set-IsBalanced :
    (e : Exporter) (a : ℕ) (t : PlacementTemplate) (b : List ℕ) (es : List Plan.Decision)
    (w : List ℕ) (framed : List (ℕ × List ℕ))
    → IsCounted e framed
    → contains e.new_templates a ≡ false
    → t.buf ≡ some b
    → t.size ≡ length b
    → e.template_set_size + header_size e.template_set_size + t.size < 2 ^ 16
    → IsBalanced (with_set e a t es w framed) (0 ∷ 0 ∷ 0 ∷ 0 ∷ w) framed
with_set-IsBalanced e a t b es w framed v new known size small =
    let kept : (e.template_set_size + header_size e.template_set_size + t.size) % 2 ^ 16
        ≡ e.template_set_size + header_size e.template_set_size + t.size =
      omega (arith, small) in
    record {
      sets = refl;
      opened = omega arith;
      counted = omega (arith, kept, v.counted);
      announced = omega (
        arith,
        kept,
        size,
        set_size-insert e.templates a t b known e.new_templates e.template_set_size new v.announced,
      );
      computed = insert-AllComputed e.templates a t b known e.new_templates v.computed;
    }

switch_template-with_new :
    (x : Context) (a n : ℕ) (t : PlacementTemplate) (es : List Plan.Decision) (e : Exporter)
    (framed : List (ℕ × List ℕ))
    → Finishes e framed
    → is_current e.current_template a ≡ false
    → contains e.used_templates a ≡ false
    → wire_template (e.templates a) ((e.current_template_id + 1) % 2 ^ 16) ≡ ok t
    → encode_plan x.little_endian t ≡ ok es
    → switch_template x a n e
      ≡ ok (
        n + header_size e.template_set_size + t.size,
        record (with_new e a t) { data_sets = map set_octets framed; plan = some es },
      )
unfolding switch_template add_template
switch_template-with_new x a n t es e framed v other unused wire planned =
    let own : with_template e.templates a t a ≡ t =
      ap (λ (z : Bool). if z then t else e.templates a) (==_refl a) in
    let plan : encode_plan x.little_endian (with_template e.templates a t a) ≡ ok es =
      ap (encode_plan x.little_endian) own ∙ planned in
    let finished = finish-Finishes e a t framed v other in rw (unused, wire, finished, plan) refl

-- The first record for a template that the exporter has not used is placed, if the exporter's
-- count of octets agrees with what is to be written, the wire form of the template can be
-- computed and has the size that is noted for it, the sums that the template keeps of its sizes
-- are those of its elements, as registration leaves them where no two elements have the same
-- enterprise and number, a plan is made for it, whose decisions have partners to decode, and
-- there is room in the message: place_values finishes the open data set, if there is one, adds
-- the template to the new ones under the next ID, and starts a data set with the record, as long
-- as its values take on the wire; the count of octets then agrees with what is to be written, and
-- DecodePlan::execute at the record gives the values back, whatever follows.
pub place_values-first :
    (c : Machine) (x : Context) (a : ℕ) (t : PlacementTemplate) (b : List ℕ)
    (es : List Plan.Decision) (ds : List Decision) (m2 : Memory) (e : Exporter)
    (framed : List (ℕ × List ℕ))
    → IsCounted e framed
    → is_current e.current_template a ≡ false
    → contains e.used_templates a ≡ false
    → contains e.new_templates a ≡ false
    → wire_template (e.templates a) ((e.current_template_id + 1) % 2 ^ 16) ≡ ok t
    → t.buf ≡ some b
    → t.size ≡ length b
    → encode_plan x.little_endian t ≡ ok es
    → AllPaired es ds x.memory m2
    → IsLaid (e.templates a)
    → e.n_message_octets + (record_size es x.memory + header_size e.template_set_size + t.size + 4)
      ≤ x.preferred
    → e.n_message_octets + (record_size es x.memory + header_size e.template_set_size + t.size + 4)
      ≤ 65535
    → (w : List ℕ) × (place_values x a e ≡ ok (with_set e a t es w framed))
      × (length w ≡ record_size es x.memory)
      × IsBalanced (with_set e a t es w framed) (0 ∷ 0 ∷ 0 ∷ 0 ∷ w) framed
      × ((rest : List ℕ)
          → execute c ds (w ++ rest) m2 ≡ ok (record_size es x.memory, deliver es ds x.memory m2))
unfolding place_values make_room finish_record make_data_set write_record
place_values-first c x a t b es ds m2 e framed v other unused new wire known sized planned paired
      laid preferred fits =
    let octets = e.n_message_octets in
    let (laid', kept) = wire_template-IsLaid x.memory (e.templates a) t _ wire laid in
    let size =
      sym kept
      ∙ data_record_size-record_size x.little_endian t es ds x.memory m2 laid' planned paired
          (omega (arith, fits)) in
    let n = record_size es x.memory in
    let start : List ℕ = 0 ∷ 0 ∷ 0 ∷ 0 ∷ [] in
    let (w, written, long, back) =
      record_round_trip c x.double_to_float 65535 es ds x.memory m2 start (omega arith)
        (omega arith) paired (omega (arith, fits)) in
    let before : leb octets 65535 ≡ true = le→leb _ _ (omega (arith, fits)) in
    let after : leb (octets + (n + header_size e.template_set_size + t.size + 4)) 65535 ≡ true =
      le→leb _ _ fits in
    let stays : ltb x.preferred (octets + (n + header_size e.template_set_size + t.size) + 4)
        ≡ false =
      le→not_ltb _ _ (omega (arith, preferred)) in
    let switched =
      switch_template-with_new x a n t es e framed v.finishes other unused wire planned in
    (
      w,
      rw (before, size, other, switched, stays, after, written, ==_refl n, unused, long) refl,
      long,
      with_set-IsBalanced e a t b es w framed v new known sized (omega (arith, v.counted, fits)),
      back,
    )
