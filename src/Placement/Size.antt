-- ===== src/Placement/Size.antt =====
-- lib/PlacementTemplate.cpp: PlacementTemplate::data_record_size.
use libfc.Prelude.{
  ℕ, ◌+◌, ◌%◌, ◌^◌, List, [], ◌∷◌, ltb, if◌then◌else◌, Outcome, ok, undefined, ◌>>=◌,
}
use libfc.Octets.{Memory, native, octets}
use libfc.Placement.Template.{PlacementInfo, PlacementTemplate}

-- `reinterpret_cast<BasicOctetArray *> (p)->get_length ()`, taken into a `uint16_t`.
unfoldable pub varlen_len : Memory → ℕ → Outcome ℕ
varlen_len m p = elim (m p) [ native bytes ↦ undefined | octets a ↦ ok (a.length % 2 ^ 16) ]

unfoldable pub varlen_sizes : Memory → List PlacementInfo → Outcome ℕ
varlen_sizes m [] = ok 0
varlen_sizes m (i ∷ rest) = do
  n ← varlen_len m i.address
  s ← varlen_sizes m rest
  ok (n + (if ltb n 255 then 1 else 3) + s)

unfoldable pub data_record_size : Memory → PlacementTemplate → Outcome ℕ
data_record_size m t = do s ← varlen_sizes m t.varlen_ies; ok (t.fixlen_data_record_size + s)
