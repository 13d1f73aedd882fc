-- ===== src/Exporter/Flush.antt =====
-- lib/PlacementExporter.cpp: PlacementExporter::flush and change_observation_domain.
use libfc.Prelude.{
  ℕ, ◌+◌, ◌-◌, ◌%◌, ◌^◌, List, [], ◌∷◌, ◌++◌, reverse, Option, none, some, ltb, leb, ◌==◌,
  if◌then◌else◌, length, replicate, Outcome, ok, undefined, assert, ◌>>=◌, ◌>>◌,
}
use mathlib.Core.List.{flatten}
use libfc.Constants.{ipfix_version, ipfix_message_header_len}
use libfc.Wire.{encode16, encode32}
use libfc.Placement.Template.{PlacementTemplate}
use libfc.Placement.Wire.{wire_template}
use libfc.Exporter.State.{Exporter, finish_current_data_set, finish_at}

-- The octets of a wire form that has been computed.
unfoldable pub wire_octets : Option (List ℕ) → Outcome (List ℕ)
wire_octets none = undefined
wire_octets (some b) = ok b

-- The templates of the template set, behind what has been written of it.
unfoldable pub write_templates : (ℕ → PlacementTemplate) → ℕ → List ℕ → List ℕ → Outcome (List ℕ)
write_templates templates size out [] = ok out
write_templates templates size out (a ∷ rest) = do
  t ← wire_template (templates a) 0
  b ← wire_octets t.buf
  assert (leb (length out + length b) size)
  write_templates templates size (out ++ b) rest

-- The template set, if there is any new template; octets that nothing writes are indeterminate,
-- here 0.
unfoldable pub template_set : Exporter → List ℕ → Outcome (List ℕ)
template_set e [] = ok []
template_set e (a ∷ rest) = do
  assert (leb 4 e.template_set_size)
  out ←
      write_templates e.templates e.template_set_size (encode16 2 ++ encode16 e.template_set_size)
        (a ∷ rest)
  ok (out ++ replicate (e.template_set_size - length out) 0)

unfoldable pub message_header : Exporter → ℕ → List ℕ
message_header e now =
    encode16 ipfix_version
    ++ (encode16 e.n_message_octets
        ++ (encode32 now ++ (encode32 e.sequence_number ++ encode32 e.observation_domain)))

-- The octets behind the header: finish_current_data_set works on the last iovec, which is the template
-- set if there is no data set.
unfoldable pub message_body : Exporter → List ℕ → List (List ℕ) → Outcome (List ℕ)
message_body e set [] = finish_at e.templates e.current_template set
message_body e set (l ∷ ls) = do
  sets ← finish_current_data_set e (l ∷ ls)
  ok (set ++ flatten (reverse sets))

-- PlacementExporter::flush, at the time `now` (`none` where time () fails).
unfoldable pub flush_at : Option ℕ → Exporter → Outcome Exporter
flush_at none e = ok e
flush_at (some now) e = do
  set ← template_set e e.new_templates
  body ← message_body e set e.data_sets
  ok (record e {
    sequence_number = (e.sequence_number + 1) % 2 ^ 32;
    n_message_octets = ipfix_message_header_len;
    template_set_size = 0;
    data_sets = [];
    new_templates = [];
    written = (message_header e now ++ body) ∷ e.written;
  })

unfoldable pub flush : Option ℕ → Exporter → Outcome Exporter
unfolding flush_at
flush now e = if ltb ipfix_message_header_len e.n_message_octets then flush_at now e else ok e

-- PlacementExporter::change_observation_domain.
unfoldable pub change_observation_domain : Option ℕ → ℕ → Exporter → Outcome Exporter
change_observation_domain now domain e =
    if e.observation_domain == domain
    then ok e
    else flush now e >>= λ e'. ok (record e' { observation_domain = domain })
