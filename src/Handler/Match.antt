-- ===== src/Handler/Match.antt =====
-- lib/PlacementContentHandler.cpp: match_placement_template, whose assertions hold.
use libfc.Prelude.{
  ℕ, ◌≡◌, ◌<◌, refl, arith, ◌∙◌, sym, true, List, [], ◌∷◌, some, ok, ltb, leb, length, Bool-cases,
  inl, inr, le→leb, ==_refl,
}
use libfc.Info.Types.{InfoElement}
use libfc.Placement.Template.{PlacementTemplate, is_match}
use libfc.Placement.Matched.{AreDistinct, AreDistinctKeys, unmatched-is_match}
use libfc.Handler.State.{Collector}
use libfc.Handler.Data.{first_match, check_match}

first_match-is_match :
    (ps : List (ℕ × PlacementTemplate × Collector)) (wire : List InfoElement)
    (t : PlacementTemplate) (cb : Collector)
    → first_match ps wire ≡ some (t, cb)
    → 0 < is_match t wire
unfolding first_match
first_match-is_match [] wire t cb h = absurd (ground (arith))
first_match-is_match ((a, u, c) ∷ ps) wire t cb h = elim (Bool-cases (ltb 0 (is_match u wire))) [
  | inl e ↦
      let found : first_match ((a, u, c) ∷ ps) wire ≡ some (u, c) = rw (e, first_match) refl in
      let same : u ≡ t = ground (arith, found, h) in ground (arith, e, same)
  | inr e ↦
      let skipped : first_match ((a, u, c) ∷ ps) wire ≡ first_match ps wire =
        rw (e, first_match) refl in
      first_match-is_match ps wire t cb (sym skipped ∙ h)
]

-- For the template that is found, the assertions hold, where no two of its elements and no two elements
-- of the wire template have the same numbers.
pub check_match-first_match :
    (ps : List (ℕ × PlacementTemplate × Collector)) (wire : List InfoElement)
    (t : PlacementTemplate) (cb : Collector)
    → first_match ps wire ≡ some (t, cb)
    → AreDistinctKeys t.placements
    → AreDistinct wire
    → check_match t wire ≡ ok tt
unfolding check_match
check_match-first_match ps wire t cb h d v =
    let sum = unmatched-is_match t wire d v (first_match-is_match ps wire t cb h) in
    let fits : leb (is_match t wire) (length wire) ≡ true = le→leb _ _ (omega (arith, sum)) in
    rw (fits, sum, ==_refl (length wire)) (ground arith)
