-- ===== src/Placement/Wire.antt =====
-- lib/PlacementTemplate.cpp: PlacementTemplate::wire_template.
use libfc.Prelude.{
  ℕ, ◌+◌, ◌-◌, ◌%◌, ◌^◌, List, [], ◌∷◌, ◌++◌, none, some, ltb, leb, ◌==◌, not, if◌then◌else◌,
  length, replicate, Outcome, ok, assert, ◌>>=◌, ◌>>◌,
}
use libfc.Wire.{encode16, encode32}
use libfc.Info.Types.{InfoElement}
use libfc.Placement.Template.{PlacementInfo, PlacementTemplate}

-- `number | (1 << 15)` on a 16-bit number.
abbrev pub or_enterprise_bit : ℕ → ℕ
or_enterprise_bit number = if ltb number (2 ^ 15) then number + 2 ^ 15 else number

-- `assert (p + n <= buf + size)` and the memcpy, where `out` is what stands before `p`.
unfoldable pub emit : ℕ → List ℕ → List ℕ → Outcome (List ℕ)
emit size out bytes = do assert (leb (length out + length bytes) size); ok (out ++ bytes)

-- The octets that the first loop counts for each placement.
unfoldable pub fields_size : List (InfoElement × PlacementInfo) → ℕ
fields_size [] = 0
fields_size ((ie, info) ∷ m) = 2 + 2 + (if ie.pen == 0 then 0 else 4) + fields_size m

-- One field specifier.
unfoldable pub emit_field : ℕ → List ℕ → InfoElement → Outcome (List ℕ)
emit_field size out ie = do
  a ← emit size out (encode16 (if ie.pen == 0 then ie.number else or_enterprise_bit ie.number))
  b ← emit size a (encode16 ie.len)
  if ie.pen == 0 then ok b else emit size b (encode32 ie.pen)

unfoldable pub emit_fields : ℕ → List ℕ → List InfoElement → Outcome (List ℕ)
emit_fields size out [] = ok out
emit_fields size out (ie ∷ ies) = emit_field size out ie >>= λ out'. emit_fields size out' ies

-- The body for a null `buf`: the buffer, its size and the template with them. The octets for the
-- template ID are written last; what no write reaches is indeterminate, here 0.
unfoldable pub compute_wire : PlacementTemplate → ℕ → Outcome PlacementTemplate
compute_wire t template_id = do
  assert (not (template_id == 0))
  let size = 4 + fields_size t.placements
  out ← emit_fields size (encode16 template_id ++ encode16 (length t.placements % 2 ^ 16)) t.ies
  ok (record t {
    buf = some (out ++ replicate (size - length out) 0);
    size = size;
    template_id = template_id;
  })

-- PlacementTemplate::wire_template: the wire form is computed once, whatever the later IDs are.
unfoldable pub wire_template : PlacementTemplate → ℕ → Outcome PlacementTemplate
wire_template t template_id = elim t.buf [ some b ↦ ok t | none ↦ compute_wire t template_id ]
