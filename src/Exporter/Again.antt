-- ===== src/Exporter/Again.antt =====
-- What follows a call of PlacementExporter::flush.
use libfc.Prelude.{
  ℕ, ◌+◌, ◌≡◌, ◌≤◌, ◌<◌, refl, arith, List, [], ◌∷◌, some, ok, aborted, ltb, >>=-eq-ok, lt→ltb,
  le→not_ltb, true, false,
}
use libfc.Errors.{◌>=>◌}
use libfc.Placement.Size.{data_record_size}
use libfc.Exporter.State.{Exporter}
use libfc.Exporter.Flush.{template_set, message_body, flush, flush_at}
use libfc.Exporter.Place.{
  Context, is_current, place_values, make_room, make_data_set, finish_record, write_record,
}
use libfc.Exporter.Message.{IsBalanced, message, flush-message}
use libfc.Ipfix.Source.{buffer, buffer_source}
use libfc.Ipfix.Content.{ContentHandler}
use libfc.Ipfix.Parser.{parse}
use libfc.Ipfix.Stream.{IsSmall, deliver_messages, parse-all_messages}

-- The message that flush writes, where the count of octets agrees with what is to be written, there is
-- a data set, and the numbers fit their fields: the parser, over any handler, hands over exactly
-- the exporter's numbers, its new templates' set and its data sets.
pub flush-parse :
    (ch : ContentHandler) (s : ch.State) (e : Exporter) (c now : ℕ) (open_set : List ℕ)
    (framed : List (ℕ × List ℕ))
    → IsBalanced e open_set framed
    → e.current_template ≡ some c
    → IsSmall (message e now (e.templates c).template_id open_set framed)
    → (e' : Exporter) × (bytes : List ℕ) × (flush (some now) e ≡ ok e')
      × (e'.written ≡ bytes ∷ e.written)
      × (parse buffer_source ch 2 (buffer bytes) s
          ≡ ch.start_session s
            >=> deliver_messages ch
                (message e now (e.templates c).template_id open_set framed ∷ []))
flush-parse ch s e c now open_set framed v h small = (
  _,
  _,
  flush-message e c now open_set framed v h,
  refl,
  parse-all_messages ch (message e now (e.templates c).template_id open_set framed ∷ []) 2 s
      (small, tt) (omega arith),
)

flush_frame :
    (now : ℕ) (e e' : Exporter)
    → 16 < e.n_message_octets
    → flush (some now) e ≡ ok e'
    → (e'.templates ≡ e.templates)
      × (e'.current_template ≡ e.current_template)
      × (e'.data_sets ≡ [])
      × (e'.n_message_octets ≡ 16)
unfolding flush flush_at
flush_frame now e e' n h =
    let long : ltb 16 e.n_message_octets ≡ true = lt→ltb _ _ n in
    let k : flush_at (some now) e ≡ ok e' = ground (arith) in
    let (set, e1, k1) = >>=-eq-ok (template_set e e.new_templates) _ k in
    let (body, e2, k2) = >>=-eq-ok (message_body e set e.data_sets) _ k1 in
    (ground (arith), ground (arith), ground (arith), ground (arith))

-- After a flush that wrote a message, a record for the template that was current, which would fit the
-- new message, is not placed: place_values starts no data set, since the template is still
-- current, and the assertion that there is one fails.
pub place_values-flush :
    (x : Context) (now c size : ℕ) (e e' : Exporter)
    → 16 < e.n_message_octets
    → e.current_template ≡ some c
    → flush (some now) e ≡ ok e'
    → data_record_size x.memory (e.templates c) ≡ ok size
    → 16 + size ≤ x.preferred
    → place_values x c e' ≡ aborted
unfolding place_values make_room finish_record make_data_set write_record
place_values-flush x now c size e e' n cur h d room =
    let (ts, same, none_left, fresh) = flush_frame now e e' n h in
    let d' : data_record_size x.memory (e'.templates c) ≡ ok size = ground (arith, ts, d) in
    let fits : ltb x.preferred (e'.n_message_octets + size + 0) ≡ false =
      le→not_ltb _ _ (omega (arith, fresh)) in
    let current : is_current e'.current_template c ≡ true = ground (arith, same, cur) in
    ground (arith, d', fits, current, none_left, fresh)
