-- ===== src/Handler/Records.antt =====
-- The loop of PlacementContentHandler::start_data_set over the records of a data set.
use mathlib.Core.List.{flatten}
use mathlib.Core.Path.{subst}
use libfc.Prelude.{
  ℕ, zero, suc, ◌≡◌, ◌≤◌, ◌<◌, refl, ◌∙◌, arith, List, [], ◌∷◌, ◌++◌, some, none, ok, All, length,
  length-append, drop, drop-append, ltb, leb, lt→ltb, le→leb, true, Option-cases, inl, inr,
}
use libfc.Errors.{Call, return_ok, ◌>=>◌, >=>-cong_ok}
use libfc.Octets.{Memory}
use libfc.Info.Template.{IeTemplate}
use libfc.Placement.Template.{PlacementTemplate}
use libfc.Decode.Plan.{Machine, Decision, decode_plan}
use libfc.Decode.Execute.{execute}
use libfc.Decode.Locality.{execute_local}
use libfc.Handler.State.{find_wire_template, Handler, Collector, call_back}
use libfc.Placement.Matched.{AreDistinct, AreDistinctKeys}
use libfc.Handler.Match.{check_match-first_match}
use libfc.Handler.Data.{
  wire_template_min_length, first_match, note_incomplete, place_data_set, with_template,
  start_data_set, place_at, place_record, place_records, next_placement,
}

module _ (c : Machine) (t : PlacementTemplate) (cb : Collector) (plan : List Decision)
    (effect : List ℕ → Memory → Memory) (Good : Memory → Type 0) where
  -- What the callbacks keep of the memory.
  abbrev pub Keeps : Type 0
  Keeps =
      ((m : Memory) → Good m → Good (cb.start_placement t m).1)
      × ((m : Memory) → Good m → Good (cb.end_placement t m).1)

  -- A record that the plan reads as a whole from any good memory, and with what effect on it.
  abbrev pub Reads : ℕ → List ℕ → Type 0
  Reads min_length r =
      (0 < length r)
      × (min_length ≤ length r)
      × ((m : Memory)
          → Good m
          → (execute c plan r m ≡ ok (length r, effect r m)) × Good (effect r m))

  -- The events for one record, and for all: the values are in their places between the callbacks.
  abbrev pub deliver_record : List ℕ → Handler → Call Handler
  deliver_record r h = call_back (cb.start_placement t) h >=> λ h1.
      call_back (cb.end_placement t) (record h1 { memory = effect r h1.memory })

  abbrev pub deliver_records : List (List ℕ) → Handler → Call Handler
  deliver_records [] h = return_ok h
  deliver_records (r ∷ rs) h = deliver_record r h >=> deliver_records rs

  place_record-Reads :
      (min_length : ℕ) (r more : List ℕ) (h : Handler) (next : Handler → ℕ → Call Handler)
      → Keeps
      → Good h.memory
      → Reads min_length r
      → next_placement c t cb plan (place_record c t cb plan (r ++ more) h) next
        ≡ deliver_record r h >=> (λ h'. next h' (length r))
  unfolding place_record place_at call_back
  place_record-Reads min_length r more h next k g v =
      let m1 = (cb.start_placement t h.memory).1 in
      let whole =
        (execute_local c plan r more m1 (length r) (effect r m1) (v.2 m1 (k.0 h.memory g)).0).2 in
      elim (Option-cases (cb.start_placement t h.memory).0) [
        | inr (x, e) ↦ rw (e, place_record) refl
        | inl e ↦ elim (Option-cases (cb.end_placement t (effect r m1)).0) [
          | inl e2 ↦ rw (e, whole, e2, place_record, place_at) refl
          | inr (x, e2) ↦ rw (e, whole, e2, place_record, place_at) refl
        ]
      ]

  deliver_record-Good :
      (min_length : ℕ) (r : List ℕ) (h h' : Handler)
      → Keeps
      → Good h.memory
      → Reads min_length r
      → deliver_record r h ≡ ok (none, h')
      → Good h'.memory
  unfolding call_back
  deliver_record-Good min_length r h h' k g v e =
      let m1 = (cb.start_placement t h.memory).1 in
      let last : (cb.end_placement t (effect r m1)).1 ≡ h'.memory = ground (arith) in
      subst Good last (k.1 (effect r m1) (v.2 m1 (k.0 h.memory g)).1)

  place_records-Reads :
      (rs : List (List ℕ)) (fuel min_length : ℕ) (h : Handler)
      → Keeps
      → Good h.memory
      → All (Reads min_length) rs
      → length rs ≤ fuel
      → place_records c t cb plan fuel min_length (flatten rs) h ≡ deliver_records rs h
  unfolding place_records flatten
  place_records-Reads [] zero min_length h k g v l = refl
  place_records-Reads [] (suc fuel) min_length h k g v l = refl
  place_records-Reads (r ∷ rs) zero min_length h k g v l = absurd (omega arith)
  place_records-Reads (r ∷ rs) (suc fuel) min_length h k g v l =
      let size = length-append r (flatten rs) in
      let filled : ltb 0 (length (r ++ flatten rs)) ≡ true =
        lt→ltb _ _ (omega (arith, size, v.0.0)) in
      let enough : leb min_length (length (r ++ flatten rs)) ≡ true =
        le→leb _ _ (omega (arith, size, v.0.1)) in
      rw (filled, enough, place_records)
        (place_record-Reads min_length r (flatten rs) h
            (λ h' consumed.
              place_records c t cb plan fuel min_length (drop consumed (r ++ flatten rs)) h')
            k g v.0
          ∙ >=>-cong_ok (deliver_record r h) _ _ λ h' e.
            rw (drop-append (length r) r (flatten rs) refl) (
              place_records-Reads rs fuel min_length h' k
                (deliver_record-Good min_length r h h' k g v.0 e) v.1 (omega (arith, l))))

  length-flatten :
      (rs : List (List ℕ)) (min_length : ℕ)
      → All (Reads min_length) rs
      → length rs ≤ length (flatten rs)
  unfolding flatten
  length-flatten [] n v = omega arith
  length-flatten (r ∷ rs) n v =
      omega (arith, length-append r (flatten rs), length-flatten rs n v.1, v.0.0)

  -- For a data set of a known wire template that a registered placement template matches, where
  -- no two elements of the placement template and no two of the wire template have the same
  -- enterprise and number, and no two of the wire template are the same object, for which the
  -- constructor gives a decode plan, and that is a sequence of records each of which the plan
  -- reads as a whole from any memory of a kind that the records and the callbacks keep,
  -- start_data_set tells the collector of every record in order, with the values of the record in
  -- their places when end_placement is called, up to the first reply that is an error, and comes
  -- to its end.
  pub start_data_set-Reads :
      (wire : IeTemplate) (id : ℕ) (rs : List (List ℕ)) (h : Handler)
      → Keeps
      → Good h.memory
      → find_wire_template h id ≡ some wire
      → first_match h.placement_templates wire.ies ≡ some (t, cb)
      → AreDistinctKeys t.placements
      → AreDistinct wire.ies
      → decode_plan c t wire.ies ≡ ok plan
      → All (Reads (wire_template_min_length wire.ies)) rs
      → start_data_set c id (flatten rs) h ≡ deliver_records rs (note_incomplete id t wire.ies h)
  unfolding start_data_set with_template place_data_set note_incomplete
  start_data_set-Reads wire id rs h k g found matched keys distinct planned v =
      let checked =
        check_match-first_match h.placement_templates wire.ies t cb matched keys distinct in
      let start = note_incomplete id t wire.ies h in
      let same : h.memory ≡ start.memory = ground (arith) in
      let min_length = wire_template_min_length wire.ies in
      let loop =
        place_records-Reads rs (length (flatten rs)) min_length start k (subst Good same g) v
          (length-flatten rs min_length v) in
      rw (found, matched, checked, planned, start_data_set, with_template, place_data_set) loop
