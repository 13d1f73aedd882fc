-- ===== src/Handler/Data.antt =====
-- lib/PlacementContentHandler.cpp: data sets.
use libfc.Prelude.{
  ◌>>◌, ℕ, zero, suc, ◌+◌, ◌%◌, ◌^◌, List, [], ◌∷◌, Option, none, some, ltb, leb, ◌==◌, ◌&&◌,
  if◌then◌else◌, length, drop, ok, thrown, aborted, undefined, exhausted, ◌>>=◌, Outcome, assert,
  not, ◌||◌,
}
use libfc.Errors.{Reply, Call, again, return_ok}
use libfc.Info.Types.{InfoElement, ipfix_varlen}
use libfc.Info.Template.{IeTemplate}
use libfc.Placement.Template.{PlacementTemplate, is_match, unmatched}
use libfc.Decode.Plan.{Machine, Decision, decode_plan}
use libfc.Decode.Execute.{execute}
use libfc.Handler.State.{Handler, Collector, find_wire_template, make_template_key}

-- PlacementContentHandler::wire_template_min_length, a `uint16_t`.
unfoldable pub wire_template_min_length : List InfoElement → ℕ
wire_template_min_length [] = 0
wire_template_min_length (ie ∷ ies) =
    let rest = wire_template_min_length ies in
    if ie.len == ipfix_varlen then rest else (ie.len + rest) % 2 ^ 16

-- PlacementContentHandler::match_placement_template: the first match.
unfoldable pub first_match :
    List (ℕ × PlacementTemplate × Collector)
    → List InfoElement
    → Option (PlacementTemplate × Collector)
first_match [] wire = none
first_match ((a, t, c) ∷ rest) wire =
    if ltb 0 (is_match t wire) then some (t, c) else first_match rest wire

-- The keys that have been warned about.
unfoldable pub insert : ℕ → List ℕ → List ℕ
insert k [] = k ∷ []
insert k (x ∷ xs) = if x == k then x ∷ xs else x ∷ insert k xs

-- Its assertions about the number of matches and about the set of unmatched elements.
unfoldable pub check_match : PlacementTemplate → List InfoElement → Outcome (Unit {0})
check_match t wire = do
  assert (leb (is_match t wire) (length wire))
  assert (
      not (ltb (is_match t wire) (length wire))
      || (length (unmatched t wire) + is_match t wire == length wire))

-- What it notes about a match that leaves elements of the wire template out.
unfoldable pub note_incomplete : ℕ → PlacementTemplate → List InfoElement → Handler → Handler
note_incomplete id t wire h =
    if ltb (is_match t wire) (length wire)
    then record h {
      incomplete_template_ids =
          insert (make_template_key h.observation_domain id) h.incomplete_template_ids;
    }
    else h

-- One round of the loop over the records of a data set, and the loop, on fuel.
module _ (c : Machine) (t : PlacementTemplate) (cb : Collector) (plan : List Decision) where
  -- The round after start_placement has replied.
  unfoldable pub place_at : Reply → List ℕ → Handler → Call (Handler × ℕ)
  place_at (some e) cur h = ok (some e, (h, 0))
  place_at none cur h = do
    (consumed, m) ← execute c plan cur h.memory
    let (r, m') = cb.end_placement t m
    ok (r, (record h { memory = m' }, consumed))

  unfoldable pub place_record : List ℕ → Handler → Call (Handler × ℕ)
  unfolding place_at
  place_record cur h =
      let (r, m) = cb.start_placement t h.memory in place_at r cur (record h { memory = m })

  abbrev pub next_placement : Call (Handler × ℕ) → (Handler → ℕ → Call Handler) → Call Handler
  next_placement (ok (none, (h, consumed))) f = f h consumed
  next_placement (ok (some e, (h, consumed))) f = ok (some e, h)
  next_placement thrown f = thrown
  next_placement aborted f = aborted
  next_placement undefined f = undefined
  next_placement exhausted f = exhausted

  unfoldable pub place_records : ℕ → ℕ → List ℕ → Handler → Call Handler
  place_records zero min_length cur h =
      if ltb 0 (length cur) && leb min_length (length cur) then exhausted else return_ok h
  place_records (suc fuel) min_length cur h =
      if ltb 0 (length cur) && leb min_length (length cur)
      then next_placement (place_record cur h)
          (λ h' consumed. place_records fuel min_length (drop consumed cur) h')
      else return_ok h

-- The part of PlacementContentHandler::start_data_set behind the search for the wire template.
module _ (c : Machine) where
  unfoldable pub place_data_set :
      Option (PlacementTemplate × Collector)
      → ℕ
      → List InfoElement
      → List ℕ
      → Handler
      → Call Handler
  place_data_set none id wire buf h = return_ok h
  place_data_set (some (t, cb)) id wire buf h = do
    check_match t wire
    plan ← decode_plan c t wire
    place_records c t cb plan (length buf) (wire_template_min_length wire) buf
        (note_incomplete id t wire h)

  unfoldable pub with_template : IeTemplate → ℕ → List ℕ → Handler → Call Handler
  with_template wire id buf h =
      place_data_set (first_match h.placement_templates wire.ies) id wire.ies buf h

  -- No wire template, at the first and at the second chance.
  unfoldable pub note_unmatched : ℕ → Handler → Handler
  note_unmatched id h = record h {
    unmatched_template_ids =
        insert (make_template_key h.observation_domain id) h.unmatched_template_ids;
  }

  unfoldable pub second_chance : Option IeTemplate → ℕ → List ℕ → Handler → Call Handler
  second_chance none id buf h = return_ok (note_unmatched id h)
  second_chance (some wire) id buf h = with_template wire id buf h

  -- After the callback for an unhandled data set: a null reply is dereferenced, and any error but
  -- `again` leaves no template, which is asserted.
  unfoldable pub after_unhandled : Reply → ℕ → List ℕ → Handler → Call Handler
  after_unhandled none id buf h = undefined
  after_unhandled (some e) id buf h = elim e.error [
    | again ↦ second_chance (find_wire_template h id) id buf h
    | _ ↦ aborted
  ]

  unfoldable pub unhandled : Option Collector → ℕ → List ℕ → Handler → Call Handler
  unhandled none id buf h = return_ok (note_unmatched id h)
  unhandled (some cb) id buf h =
      let (r, m) = cb.unhandled_data_set h.observation_domain id buf h.memory in
      after_unhandled r id buf (record h { memory = m })

  -- PlacementContentHandler::start_data_set.
  unfoldable pub start_data_set : ℕ → List ℕ → Handler → Call Handler
  start_data_set id buf h = elim (find_wire_template h id) [
    | some wire ↦ with_template wire id buf h
    | none ↦ unhandled h.unhandled_data_set_handler id buf h
  ]
