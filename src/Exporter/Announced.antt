-- ===== src/Exporter/Announced.antt =====
-- lib/PlacementExporter.cpp: the set of new templates while place_values adds one.
use mathlib.Core.List.{append-nil}
use libfc.Prelude.{
  ℕ, ◌+◌, ◌≡◌, ◌<◌, refl, ap, ◌∙◌, arith, Bool, true, false, List, [], ◌∷◌, some, ltb, ◌==◌,
  if◌then◌else◌, ==_refl, length, length-append, All,
}
use libfc.Constants.{ipfix_set_header_len}
use libfc.Placement.Template.{PlacementTemplate}
use libfc.Exporter.State.{contains, insert}
use libfc.Exporter.Message.{wire_of, pending, set_size, IsComputed}
use libfc.Ipfix.Sets.{set_octets, length-set_octets}

abbrev pub with_template : (ℕ → PlacementTemplate) → ℕ → PlacementTemplate → ℕ → PlacementTemplate
with_template templates a t b = if a == b then t else templates b

-- The header of the set of new templates, if there is none yet.
abbrev pub header_size : ℕ → ℕ
header_size size = if size == 0 then ipfix_set_header_len else 0

length-set_size :
    (ts : ℕ → PlacementTemplate) (news : List ℕ)
    → 0 < length news
    → set_size ts news ≡ 4 + length (pending ts news)
length-set_size ts [] h = absurd (omega arith)
length-set_size ts (a ∷ news) h =
    ap length (append-nil (set_octets (2, pending ts (a ∷ news))))
    ∙ length-set_octets 2 (pending ts (a ∷ news))

module _ (ts : ℕ → PlacementTemplate) (a : ℕ) (t : PlacementTemplate) (b : List ℕ)
    (known : t.buf ≡ some b) where
  abbrev ts' : ℕ → PlacementTemplate
  ts' = with_template ts a t

  pending-with_template :
      (news : List ℕ) → contains news a ≡ false → pending ts' news ≡ pending ts news
  unfolding contains
  pending-with_template [] h = refl
  pending-with_template (x ∷ news) h =
      let rest : contains news a ≡ false = ground (arith, h) in
      let other : (a == x) ≡ false = ground (arith, h) in
      ground (arith, other, pending-with_template news rest)

  own : (ts' a).buf ≡ some b
  own = ap (λ (z : Bool). (if z then t else ts a).buf) (==_refl a) ∙ known

  with_template-IsComputed : (x : ℕ) → IsComputed (ts x) → IsComputed (ts' x)
  with_template-IsComputed x v =
      elim (a == x) as (λ (z : Bool). IsComputed (if z then t else ts x)) [
        | true ↦ (b, known)
        | false ↦ v
      ]

  with_template-AllComputed :
      (news : List ℕ) → All (λ c. IsComputed (ts c)) news → All (λ c. IsComputed (ts' c)) news
  with_template-AllComputed [] v = tt
  with_template-AllComputed (x ∷ news) v =
      (with_template-IsComputed x v.0, with_template-AllComputed news v.1)

  pub insert-AllComputed :
      (news : List ℕ)
      → All (λ c. IsComputed (ts c)) news
      → All (λ c. IsComputed (ts' c)) (insert a news)
  unfolding insert
  insert-AllComputed [] v = ((b, own), tt)
  insert-AllComputed (x ∷ news) v =
      let old = with_template-AllComputed (x ∷ news) v in
      elim (x == a)
        as (λ (z : Bool).
          All (λ c. IsComputed (ts' c))
            (if z then x ∷ news else if ltb a x then a ∷ x ∷ news else x ∷ insert a news)) [
              | true ↦ old
              | false ↦
                  elim (ltb a x)
                    as (λ (z : Bool).
                      All (λ c. IsComputed (ts' c))
                        (if z then a ∷ x ∷ news else x ∷ insert a news)) [
                          | true ↦ ((b, own), old)
                          | false ↦ (old.0, insert-AllComputed news v.1)
                        ]
            ]

  length-pending-insert :
      (news : List ℕ)
      → contains news a ≡ false
      → length (pending ts' (insert a news)) ≡ length b + length (pending ts news)
  unfolding contains insert
  length-pending-insert [] h =
      omega (arith, ap length (append-nil (wire_of (ts' a).buf)), ap (λ o. length (wire_of o)) own)
  length-pending-insert (x ∷ news) h =
      let rest : contains news a ≡ false = ground (arith, h) in
      let other : (x == a) ≡ false = ground (arith, h) in
      let old = ap length (pending-with_template (x ∷ news) h) in
      let more = length-pending-insert news rest in
      let size = ap (λ o. length (wire_of o)) own in
      let low = length-append (wire_of (ts' x).buf) (pending ts' news) in
      let low' = length-append (wire_of (ts' x).buf) (pending ts' (insert a news)) in
      let top = length-append (wire_of (ts' a).buf) (pending ts' (x ∷ news)) in
      let behind = ap length (pending-with_template news rest) in
      elim (ltb a x)
        as (λ (z : Bool).
          length (
            pending ts'
              (if x == a then x ∷ news else if z then a ∷ x ∷ news else x ∷ insert a news))
          ≡ length b + length (pending ts (x ∷ news))) [
            | true ↦ rw other (omega (arith, old, size, top))
            | false ↦ rw other (omega (arith, old, more, low, low', behind))
          ]

  insert-grows : (news : List ℕ) → 0 < length (insert a news)
  unfolding insert
  insert-grows [] = omega arith
  insert-grows (x ∷ news) = ground arith

  -- The set of new templates grows by the wire form of the one that joins, and by its header when it is
  -- the first.
  pub set_size-insert :
      (news : List ℕ) (size : ℕ)
      → contains news a ≡ false
      → size ≡ set_size ts news
      → size + header_size size + length b ≡ set_size ts' (insert a news)
  set_size-insert [] size h e =
      let many = length-set_size ts' (insert a []) (insert-grows []) in
      let more = length-pending-insert [] h in
      let none_yet : header_size size ≡ 4 = ap header_size e in
      omega (arith, many, more, none_yet, e)
  set_size-insert (x ∷ news) size h e =
      let many = length-set_size ts' (insert a (x ∷ news)) (insert-grows (x ∷ news)) in
      let before = length-set_size ts (x ∷ news) (omega arith) in
      let more = length-pending-insert (x ∷ news) h in
      let some_yet : header_size size ≡ 0 = ground (arith, e, before) in
      omega (arith, many, more, some_yet, before, e)
