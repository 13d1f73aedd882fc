-- ===== src/Exporter/Session.antt =====
-- A program that places the records of one template with PlacementExporter::place_values and then
-- calls flush.
use libfc.Prelude.{
  ℕ, ◌+◌, ◌≡◌, ◌≤◌, refl, sym, arith, List, [], ◌∷◌, ◌++◌, some, ok, length, All, Outcome, ◌>>=◌,
}
use mathlib.Core.List.{append-nil, append_assoc, flatten}
use mathlib.Core.Path.{subst}
use libfc.Octets.{Memory}
use libfc.Placement.Laid.{IsLaid}
use libfc.Encode.Plan.{encode_plan}
use libfc.Prelude.{Bool}
use libfc.Encode.Plan
use libfc.Decode.Plan.{Machine, Decision}
use libfc.Decode.Execute.{execute}
use libfc.RoundTrip.Record.{AllPaired, deliver}
use libfc.RoundTrip.Room.{record_size}
use libfc.Exporter.State.{Exporter}
use libfc.Exporter.Place.{Context, place_values}
use libfc.Exporter.Message.{IsBalanced}
use libfc.Exporter.Balance.{with_record, place_values-IsBalanced}

-- The calls, each with the memory as it then stands, and the memory that the record is to be decoded to.
abbrev pub place_all : List (Context × Memory) → ℕ → Exporter → Outcome Exporter
place_all [] a e = ok e
place_all ((x, m) ∷ rs) a e = place_values x a e >>= λ e'. place_all rs a e'

module _ (c : Machine) (es : List Plan.Decision) (ds : List Decision) where
  abbrev pub all_size : List (Context × Memory) → ℕ
  all_size [] = 0
  all_size ((x, m) ∷ rs) = record_size es x.memory + all_size rs

  -- The record can be placed, where the messages do not grow beyond `limit`.
  abbrev pub IsPlaceable : ℕ → Context × Memory → Type 0
  IsPlaceable limit (x, m) = AllPaired es ds x.memory m × (limit ≤ x.preferred)

  -- Each record is decoded to its memory, and takes the octets that are its own.
  abbrev pub Arrive : List (Context × Memory) → List (List ℕ) → Type 0
  Arrive [] [] = Unit {0}
  Arrive ((x, m) ∷ rs) (w ∷ ws) =
      ((rest : List ℕ) → execute c ds (w ++ rest) m ≡ ok (length w, deliver es ds x.memory m))
      × Arrive rs ws
  Arrive _ _ = ⊥

  pub place_all-IsBalanced :
      (le : Bool) (rs : List (Context × Memory)) (a limit : ℕ) (e : Exporter) (open_set : List ℕ)
      (framed : List (ℕ × List ℕ))
      → IsBalanced e open_set framed
      → e.current_template ≡ some a
      → e.plan ≡ some es
      → IsLaid (e.templates a)
      → encode_plan le (e.templates a) ≡ ok es
      → All (IsPlaceable limit) rs
      → e.n_message_octets + all_size rs ≤ limit
      → limit ≤ 65535
      → (e' : Exporter) × (ws : List (List ℕ)) × (place_all rs a e ≡ ok e')
        × IsBalanced e' (open_set ++ flatten ws) framed
        × (e'.n_message_octets ≡ e.n_message_octets + all_size rs)
        × ((e'.templates ≡ e.templates)
            × (e'.new_templates ≡ e.new_templates)
            × (e'.current_template ≡ some a)
            × (e'.sequence_number ≡ e.sequence_number)
            × (e'.observation_domain ≡ e.observation_domain)
            × (e'.written ≡ e.written))
        × Arrive rs ws
  unfolding flatten
  place_all-IsBalanced le [] a limit e open_set framed v cur planned laid made ok_all fits bound = (
    e,
    [],
    refl,
    subst (λ o. IsBalanced e o framed) (sym (append-nil open_set)) v,
    omega arith,
    (refl, refl, cur, refl, refl, refl),
    tt,
  )
  place_all-IsBalanced le ((x, m) ∷ rs) a limit e open_set framed v cur planned laid made
        ((paired, wide), more) fits bound =
      let (w, placed, long, v', back) =
        place_values-IsBalanced c le x a es ds m e open_set framed v cur planned paired laid made
          (omega (arith, fits, wide)) (omega (arith, fits, bound)) in
      let (e', ws, done, v'', counted, kept, arrive) =
        place_all-IsBalanced le rs a limit (with_record e a w open_set framed) (open_set ++ w)
          framed v' refl planned laid made more (omega (arith, fits, long)) bound in
      (
        e',
        w ∷ ws,
        rw placed done,
        subst (λ o. IsBalanced e' o framed) (append_assoc open_set w (flatten ws)) v'',
        omega (arith, counted, long),
        kept,
        (λ rest. rw long (back rest), arrive),
      )
