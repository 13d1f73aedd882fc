-- ===== src/Placement/Laid.antt =====
-- lib/PlacementTemplate.cpp: how the sums that register_placement keeps belong to the placements.
use mathlib.Core.List.{append_assoc, append-nil}
use libfc.Prelude.{
  ℕ, ◌+◌, ◌≡◌, ◌∙◌, refl, sym, ap, arith, false, List, [], ◌∷◌, ◌++◌, Option, none, some, map, ◌==◌,
  if◌then◌else◌, All, Bool-cases, inl, inr,
}
use mathlib.Core.Path.{subst}
use libfc.Prelude.{Option-cases, >>=-eq-ok, ok_injective, assert, not, ok, length, ◌%◌, ◌^◌}
use libfc.Placement.Wire.{wire_template, compute_wire, emit_fields, fields_size}
use libfc.Placement.Size.{data_record_size}
use libfc.Wire.{encode16}
use libfc.Octets.{Memory}
use libfc.Info.Types.{InfoElement, ipfix_varlen, matches, matches_refl}
use libfc.Placement.Template.{
  PlacementInfo, PlacementTemplate, assign, effective_size, register_placement, lookup_placement,
  is_placed,
}
use libfc.Placement.Form.{IsFresh}

-- What a placed element adds to the octets that every record takes, and the place of its value if it
-- is of variable length.
abbrev pub fixed_at : Option (ℕ × ℕ) → ℕ
fixed_at none = 0
fixed_at (some (p, size)) = if size == ipfix_varlen then 0 else size

abbrev pub varlen_at : Option (ℕ × ℕ) → List ℕ
varlen_at none = []
varlen_at (some (p, size)) = if size == ipfix_varlen then p ∷ [] else []

abbrev pub fixed_sum : List (InfoElement × PlacementInfo) → List InfoElement → ℕ
fixed_sum m [] = 0
fixed_sum m (ie ∷ ies) = fixed_at (lookup_placement m ie) + fixed_sum m ies

abbrev pub varlen_places : List (InfoElement × PlacementInfo) → List InfoElement → List ℕ
varlen_places m [] = []
varlen_places m (ie ∷ ies) = varlen_at (lookup_placement m ie) ++ varlen_places m ies

-- The sum of the fixed sizes and the list of the values of variable length are those of the elements as
-- lookup_placement finds them.
pub record IsLaid (t : PlacementTemplate) : Type 0 where
  pub fixed : t.fixlen_data_record_size ≡ fixed_sum t.placements t.ies
  pub varlen : map (λ i. i.address) t.varlen_ies ≡ varlen_places t.placements t.ies

lookup-assign_other :
    (ie x : InfoElement) (info : PlacementInfo) (m : List (InfoElement × PlacementInfo))
    → IsFresh ie.address m
    → matches ie x ≡ false
    → lookup_placement (assign ie info m) x ≡ lookup_placement m x
unfolding assign lookup_placement
lookup-assign_other ie x info [] f h = rw (h, lookup_placement) refl
lookup-assign_other ie x info ((k, v) ∷ m) f h =
    ground (arith, lookup-assign_other ie x info m f.1 h)

lookup-assign :
    (ie : InfoElement) (info : PlacementInfo) (m : List (InfoElement × PlacementInfo))
    → IsFresh ie.address m
    → is_placed m ie ≡ false
    → lookup_placement (assign ie info m) ie ≡ some (info.address, info.size_on_wire)
unfolding assign lookup_placement is_placed
lookup-assign ie info [] f h = rw (matches_refl ie, lookup_placement) refl
lookup-assign ie info ((k, v) ∷ m) f h =
    let other : matches k ie ≡ false = ground (arith) in
    let rest : is_placed m ie ≡ false = ground (arith) in
    ground (arith, matches_refl ie, other, lookup-assign ie info m f.1 rest)

-- What is found for the elements before.
sums-assign :
    (ie : InfoElement) (info : PlacementInfo) (m : List (InfoElement × PlacementInfo))
    (ies : List InfoElement)
    → IsFresh ie.address m
    → All (λ x. matches ie x ≡ false) ies
    → (fixed_sum (assign ie info m) ies ≡ fixed_sum m ies)
      × (varlen_places (assign ie info m) ies ≡ varlen_places m ies)
sums-assign ie info m [] f v = (refl, refl)
sums-assign ie info m (x ∷ ies) f v =
    let same = lookup-assign_other ie x info m f v.0 in
    let ih = sums-assign ie info m ies f v.1 in (rw (same, ih.0) refl, rw (same, ih.1) refl)

sums-append :
    (m : List (InfoElement × PlacementInfo)) (ies : List InfoElement) (ie : InfoElement)
    → (fixed_sum m (ies ++ (ie ∷ [])) ≡ fixed_sum m ies + fixed_at (lookup_placement m ie))
      × (varlen_places m (ies ++ (ie ∷ []))
          ≡ varlen_places m ies ++ varlen_at (lookup_placement m ie))
sums-append m [] ie = (omega arith, append-nil (varlen_at (lookup_placement m ie)))
sums-append m (x ∷ ies) ie =
    let ih = sums-append m ies ie in
    (
      omega (arith, ih.0),
      ap (λ l. varlen_at (lookup_placement m x) ++ l) ih.1
          ∙ sym (
              append_assoc (varlen_at (lookup_placement m x)) (varlen_places m ies)
                (varlen_at (lookup_placement m ie))),
    )

map-append :
    (f : PlacementInfo → ℕ) (xs : List PlacementInfo) (i : PlacementInfo)
    → map f (xs ++ (i ∷ [])) ≡ map f xs ++ (f i ∷ [])
map-append f [] i = refl
map-append f (x ∷ xs) i = ap (λ l. f x ∷ l) (map-append f xs i)

-- Registering an element that matches none of those before keeps the sums those of the elements.
pub register_placement-IsLaid :
    (t : PlacementTemplate) (ie : InfoElement) (p size : ℕ)
    → IsLaid t
    → IsFresh ie.address t.placements
    → is_placed t.placements ie ≡ false
    → All (λ x. matches ie x ≡ false) t.ies
    → IsLaid (register_placement t ie p size)
unfolding register_placement
register_placement-IsLaid t ie p size v fresh new distinct =
    let used = effective_size ie size in
    let info : PlacementInfo = record { ie = ie; address = p; size_on_wire = used } in
    let found = lookup-assign ie info t.placements fresh new in
    let before = sums-assign ie info t.placements t.ies fresh distinct in
    let last = sums-append (assign ie info t.placements) t.ies ie in
    elim (Bool-cases (used == ipfix_varlen)) [
      | inl e ↦ record {
        fixed = rw (e, last.0, found, e, before.0) (omega (arith, v.fixed));
        varlen =
            rw (e, last.1, found, e, before.1)
              (map-append (λ i. i.address) t.varlen_ies info ∙ ap (λ l. l ++ (p ∷ [])) v.varlen);
      }
      | inr e ↦ record {
        fixed = rw (e, last.0, found, e, before.0) (omega (arith, v.fixed));
        varlen =
            rw (e, last.1, found, e, before.1)
              (v.varlen ∙ sym (append-nil (varlen_places t.placements t.ies)));
      }
    ]

wire_template_frame :
    (u t : PlacementTemplate) (id : ℕ)
    → wire_template u id ≡ ok t
    → (b : Option (List ℕ)) × (size i : ℕ) × (t
        ≡ record u { buf = b; size = size; template_id = i })
unfolding wire_template compute_wire
wire_template_frame u t id h = elim (Option-cases u.buf) [
  | inl e ↦
      let k : compute_wire u id ≡ ok t = sym (rw (e, wire_template) refl) ∙ h in
      let (checked, e1, k1) = >>=-eq-ok (assert (not (id == 0))) _ k in
      let (out, e2, k2) =
        >>=-eq-ok
          (emit_fields (4 + fields_size u.placements)
            (encode16 id ++ encode16 (length u.placements % 2 ^ 16)) u.ies)
          _ k1 in
      (_, _, _, sym (ok_injective k2))
  | inr (b, e) ↦
      let wired : wire_template u id ≡ ok u =
        ap (λ o. elim o [ some b ↦ ok u | none ↦ compute_wire u id ]) e in
      let k : ok u ≡ ok t = sym wired ∙ h in (u.buf, u.size, u.template_id, sym (ok_injective k))
]

-- Computing the wire form leaves the sums as they are.
pub wire_template-IsLaid :
    (m : Memory) (u t : PlacementTemplate) (id : ℕ)
    → wire_template u id ≡ ok t
    → IsLaid u
    → IsLaid t × (data_record_size m t ≡ data_record_size m u)
unfolding data_record_size
wire_template-IsLaid m u t id h v =
    let (b, size, i, e) = wire_template_frame u t id h in
    let Same : PlacementTemplate → Type 0 =
      λ k. IsLaid k × (data_record_size m k ≡ data_record_size m u) in
    subst Same (sym e) (record { fixed = v.fixed; varlen = v.varlen }, refl)
