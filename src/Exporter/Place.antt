-- ===== src/Exporter/Place.antt =====
-- lib/PlacementExporter.cpp: PlacementExporter::place_values.
use libfc.Prelude.{
  ℕ, ◌+◌, ◌%◌, ◌^◌, Bool, true, false, List, [], ◌∷◌, Option, none, some, ltb, leb, ◌==◌, not,
  if◌then◌else◌, replicate, Outcome, ok, undefined, aborted, assert, ◌>>=◌, ◌>>◌,
}
use libfc.Constants.{ipfix_set_header_len, max_message_len}
use libfc.Octets.{Memory}
use libfc.Placement.Size.{data_record_size}
use libfc.Placement.Wire.{wire_template}
use libfc.Encode.Plan.{Decision, encode_plan}
use libfc.Encode.Execute.{execute}
use libfc.Exporter.State.{Exporter, contains, insert, finish_current_data_set}
use libfc.Exporter.Flush.{flush}

-- What the caller and the machine give: the memory that the placements point to, the time, the
-- destination's preferred_maximum_message_size, IPFIX_LITTLE_ENDIAN and the conversion
-- of the octets of a `double` to those of a `float`.
pub record Context : Type 0 where
  pub memory : Memory
  pub now : Option ℕ
  pub preferred : ℕ
  pub little_endian : Bool
  pub double_to_float : List ℕ → List ℕ

abbrev pub is_current : Option ℕ → ℕ → Bool
is_current none a = false
is_current (some b) a = b == a

-- `first` if there is no template yet.
abbrev pub or_first : Option ℕ → ℕ → Option ℕ
or_first none a = some a
or_first (some b) a = some b

-- A template that was never used: its wire form is computed, and it joins the new templates. The
-- number is `new_bytes`.
unfoldable pub add_template : ℕ → ℕ → Exporter → Outcome (ℕ × Exporter)
add_template a new_bytes e =
    let header : ℕ = if e.template_set_size == 0 then ipfix_set_header_len else 0 in
    let id : ℕ = (e.current_template_id + 1) % 2 ^ 16 in
    wire_template (e.templates a) id >>= λ t. ok (
      new_bytes + header + t.size,
      record e {
        templates = λ b. if a == b then t else e.templates b;
        current_template_id = id;
        template_set_size = (e.template_set_size + header + t.size) % 2 ^ 16;
        new_templates = insert a e.new_templates;
        current_template = or_first e.current_template a;
      },
    )

-- The block for `tmpl != current_template`.
unfoldable pub switch_template : Context → ℕ → ℕ → Exporter → Outcome (ℕ × Exporter)
switch_template x a new_bytes e = do
  (bytes, e1) ←
      (if contains e.used_templates a then ok (new_bytes, e) else add_template a new_bytes e)
  sets ← finish_current_data_set e1 e1.data_sets
  plan ← encode_plan x.little_endian (e1.templates a)
  ok (bytes, record e1 { data_sets = sets; plan = some plan })

-- `if (make_new_data_set)`: the octets of the set header are not yet set, here 0.
unfoldable pub make_data_set : Bool → ℕ → Exporter → ℕ × Exporter
make_data_set false new_bytes e = (new_bytes, e)
make_data_set true new_bytes e = (
  new_bytes + ipfix_set_header_len,
  record e { data_sets = replicate ipfix_set_header_len 0 ∷ e.data_sets },
)

-- The flush of a message that the record would make too long.
unfoldable pub make_room : Context → ℕ → Bool → Exporter → Outcome (Bool × Exporter)
make_room x new_bytes make_new e =
    if ltb x.preferred
      (e.n_message_octets + new_bytes + (if make_new then ipfix_set_header_len else 0))
    then (flush x.now e >>= λ e'. ok (true, e'))
    else ok (make_new, e)

-- The record itself, written behind the last data set.
unfoldable pub write_record :
    Context → ℕ → Option (List Decision) → List (List ℕ) → Outcome (List (List ℕ))
write_record x record_size plan [] = aborted
write_record x record_size none (l ∷ ls) = undefined
write_record x record_size (some plan) (l ∷ ls) = do
  (enc_bytes, l') ← execute x.double_to_float max_message_len plan x.memory l
  assert (enc_bytes == record_size)
  ok (l' ∷ ls)

-- The end of place_values, from the count of the new octets on.
unfoldable pub finish_record : Context → ℕ → ℕ → ℕ → Bool → Exporter → Outcome Exporter
finish_record x a record_size new_bytes make_new e =
    let (bytes, e1) = make_data_set make_new new_bytes e in
    assert (leb (e1.n_message_octets + bytes) max_message_len)
    >> (write_record x record_size e1.plan e1.data_sets >>= λ sets. ok (record e1 {
      n_message_octets = e1.n_message_octets + bytes;
      used_templates =
          if contains e1.used_templates a then e1.used_templates else insert a e1.used_templates;
      data_sets = sets;
      current_template = some a;
    }))

-- PlacementExporter::place_values, for the template object at an address.
unfoldable pub place_values : Context → ℕ → Exporter → Outcome Exporter
place_values x a e = do
  assert (leb e.n_message_octets max_message_len)
  record_size ← data_record_size x.memory (e.templates a)
  (new_bytes, e1) ←
      (if is_current e.current_template a
        then ok (record_size, e)
        else switch_template x a record_size e)
  (make_new, e2) ← make_room x new_bytes (not (is_current e.current_template a)) e1
  finish_record x a record_size new_bytes make_new e2
