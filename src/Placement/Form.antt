-- ===== src/Placement/Form.antt =====
-- The octets of a template's wire form, and the templates that registration builds.
use mathlib.Core.List.{append-nil, append_assoc}
use libfc.Prelude.{
  ℕ, ◌+◌, ◌-◌, ◌%◌, ◌^◌, ◌≡◌, ◌≢◌, ◌≤◌, refl, arith, List, [], ◌∷◌, ◌++◌, none, some, ◌==◌,
  if◌then◌else◌, length, length-append, ok, le→leb,
}
use libfc.Wire.{encode16, encode32}
use libfc.Info.Types.{InfoElement}
use libfc.Placement.Template.{PlacementInfo, PlacementTemplate, assign, register_placement}
use libfc.Placement.Wire.{
  or_enterprise_bit, emit, fields_size, emit_field, emit_fields, compute_wire, wire_template,
}

-- The octets of one field specifier, and of all.
abbrev pub field_octets : InfoElement → List ℕ
field_octets ie =
    encode16 (if ie.pen == 0 then ie.number else or_enterprise_bit ie.number)
    ++ (encode16 ie.len ++ (if ie.pen == 0 then [] else encode32 ie.pen))

abbrev pub all_octets : List InfoElement → List ℕ
all_octets [] = []
all_octets (ie ∷ ies) = field_octets ie ++ all_octets ies

length-encode16 : (n : ℕ) → length (encode16 n) ≡ 2
unfolding encode16
length-encode16 n = refl

length-encode32 : (n : ℕ) → length (encode32 n) ≡ 4
unfolding encode32
length-encode32 n = refl

length-field_octets :
    (ie : InfoElement) → length (field_octets ie) ≡ 2 + 2 + (if ie.pen == 0 then 0 else 4)
unfolding encode16 encode32
length-field_octets ie = ground arith

-- Where there is room for a specifier it is written behind what stands there.
emit_field_fits :
    (size : ℕ) (out : List ℕ) (ie : InfoElement)
    → length out + length (field_octets ie) ≤ size
    → emit_field size out ie ≡ ok (out ++ field_octets ie)
unfolding emit_field emit encode16 encode32
emit_field_fits size out ie h =
    let id = encode16 (if ie.pen == 0 then ie.number else or_enterprise_bit ie.number) in
    grind (
      arith,
      le→leb,
      length-append out id,
      length-append (out ++ id) (encode16 ie.len),
      length-append ((out ++ id) ++ encode16 ie.len) (encode32 ie.pen),
      length-field_octets ie,
      append_assoc out id (encode16 ie.len),
      append_assoc out id (encode16 ie.len ++ encode32 ie.pen),
      append_assoc (out ++ id) (encode16 ie.len) (encode32 ie.pen),
      append-nil (encode16 ie.len),
    )

emit_fields_fit :
    (size : ℕ) (out : List ℕ) (ies : List InfoElement)
    → length out + length (all_octets ies) ≤ size
    → emit_fields size out ies ≡ ok (out ++ all_octets ies)
unfolding emit_fields
emit_fields_fit size out [] h = ground (arith, append-nil out)
emit_fields_fit size out (ie ∷ ies) h =
    let split = length-append (field_octets ie) (all_octets ies) in
    let here = emit_field_fits size out ie (omega (arith, split)) in
    let there =
      emit_fields_fit size (out ++ field_octets ie) ies
        (omega (arith, split, length-append out (field_octets ie))) in
    ground (arith, here, there, append_assoc out (field_octets ie) (all_octets ies))

-- A template whose elements were registered once each, and whose wire form is still to be computed.
pub record IsPlain (t : PlacementTemplate) : Type 0 where
  pub counted : length t.placements ≡ length t.ies
  pub sized : fields_size t.placements ≡ length (all_octets t.ies)
  pub pending : t.buf ≡ none

-- No element at the address is placed.
abbrev pub IsFresh : ℕ → List (InfoElement × PlacementInfo) → Type 0
IsFresh a [] = Unit {0}
IsFresh a ((k, v) ∷ m) = (a ≢ k.address) × IsFresh a m

assign_fresh :
    (ie : InfoElement) (info : PlacementInfo) (m : List (InfoElement × PlacementInfo))
    → IsFresh ie.address m
    → (length (assign ie info m) ≡ length m + 1)
      × (fields_size (assign ie info m) ≡ 2 + 2 + (if ie.pen == 0 then 0 else 4) + fields_size m)
unfolding assign fields_size
assign_fresh ie info [] h = (ground arith, ground arith)
assign_fresh ie info ((k, v) ∷ m) h =
    let ih = assign_fresh ie info m h.1 in (ground arith, ground arith)

all_octets-append :
    (xs : List InfoElement) (ie : InfoElement)
    → length (all_octets (xs ++ (ie ∷ []))) ≡ length (all_octets xs) + length (field_octets ie)
all_octets-append [] ie = ground (arith, append-nil (field_octets ie))
all_octets-append (x ∷ xs) ie = ground (
  arith,
  all_octets-append xs ie,
  length-append (field_octets x) (all_octets (xs ++ (ie ∷ []))),
  length-append (field_octets x) (all_octets xs),
)

-- Registering an element that is not yet placed keeps a template plain: it stays one whose elements
-- were registered once each, with the room for its wire form counted exactly.
pub register_placement-IsPlain :
    (t : PlacementTemplate) (ie : InfoElement) (p size : ℕ)
    → IsPlain t
    → IsFresh ie.address t.placements
    → IsPlain (register_placement t ie p size)
unfolding register_placement
register_placement-IsPlain t ie p size v fresh =
    let info : PlacementInfo = record {
      ie = ie;
      address = p;
      size_on_wire = if size == 0 then ie.len else size;
    } in
    let (one, two) = assign_fresh ie info t.placements fresh in
    record {
      counted = ground (arith, length-append t.ies (ie ∷ []));
      sized = ground (arith, all_octets-append t.ies ie, length-field_octets ie);
      pending = v.pending;
    }

-- The two octets of the ID, the two of the count, and the specifiers.
abbrev pub form : ℕ → List InfoElement → List ℕ
form id ies = encode16 id ++ (encode16 (length ies % 2 ^ 16) ++ all_octets ies)

pub length-form :
    (id : ℕ) (ies : List InfoElement) → length (form id ies) ≡ 4 + length (all_octets ies)
unfolding encode16
length-form id ies = omega arith

-- The wire form of a plain template, for an ID other than 0: no assertion fails, and the form is the
-- ID, the number of the elements and their specifiers in the order of registration, with no octet left
-- over.
pub wire_template-IsPlain :
    (t : PlacementTemplate) (id : ℕ)
    → IsPlain t
    → id ≢ 0
    → wire_template t id
      ≡ ok
          (record t { buf = some (form id t.ies); size = length (form id t.ies); template_id = id })
unfolding wire_template compute_wire encode16
wire_template-IsPlain t id v h =
    let start = encode16 id ++ encode16 (length t.placements % 2 ^ 16) in
    let whole : start ++ all_octets t.ies ≡ form id t.ies = ground (
      arith,
      v.counted,
      append_assoc (encode16 id) (encode16 (length t.ies % 2 ^ 16)) (all_octets t.ies),
    ) in
    let full : 4 + fields_size t.placements ≡ length (form id t.ies) =
      omega (arith, v.sized, length-form id t.ies) in
    let none_left : 4 + fields_size t.placements - length (form id t.ies) ≡ 0 =
      omega (arith, full) in
    let fits = emit_fields_fit (4 + fields_size t.placements) start t.ies (
      omega (arith, v.sized, length-encode16 id, length-encode16 (length t.placements % 2 ^ 16))) in
    ground (arith, v.pending, fits, whole, full, none_left, append-nil (form id t.ies), h)
