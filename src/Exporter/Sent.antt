-- ===== src/Exporter/Sent.antt =====
-- What a parser gets from a program that makes a PlacementExporter, places records of one template
-- and calls flush.
use mathlib.Core.List.{append-nil, flatten}
use mathlib.Core.Path.{subst}
use libfc.Prelude.{
  ℕ, ◌+◌, ◌^◌, ◌≡◌, ◌≤◌, ◌<◌, ==_refl, refl, sym, arith, ap, ◌∙◌, Bool, if◌then◌else◌, inl, List,
  [], ◌∷◌, ◌++◌, some, ok, length, length-append, All,
}
use libfc.Errors.{◌>=>◌}
use libfc.Octets.{Memory}
use libfc.Placement.Template.{PlacementTemplate}
use libfc.Placement.Laid.{IsLaid}
use libfc.Placement.Form.{IsPlain, form, wire_template-IsPlain}
use libfc.Encode.Plan
use libfc.Encode.Plan.{encode_plan}
use libfc.Decode.Plan.{Machine, Decision}
use libfc.Exporter.State.{Exporter, exporter, insert, contains}
use libfc.Exporter.Flush.{flush}
use libfc.Exporter.Place.{Context}
use libfc.Exporter.Message.{IsBalanced, sets-length, message, wire_of}
use libfc.Exporter.Announced.{with_template}
use libfc.Exporter.First.{IsCounted, with_set, place_values-first}
use libfc.Exporter.Session.{place_all, all_size, IsPlaceable, Arrive, place_all-IsBalanced}
use libfc.Exporter.Again.{flush-parse}
use libfc.Ipfix.Sets.{all_sets, set_octets, length-set_octets}
use libfc.Ipfix.Source.{buffer, buffer_source}
use libfc.Ipfix.Content.{ContentHandler}
use libfc.Ipfix.Parser.{parse}
use libfc.Ipfix.Stream.{Message, IsSmall, deliver_messages}

-- The template after its wire form has been computed for the ID 256.
abbrev pub announced : PlacementTemplate → PlacementTemplate
announced t = record t {
  buf = some (form 256 t.ies);
  size = length (form 256 t.ies);
  template_id = 256;
}

-- The one message: the template and the records.
abbrev pub sent_message : PlacementTemplate → ℕ → ℕ → List (List ℕ) → Message
sent_message t now domain ws = record {
  export_time = now;
  sequence_number = 0;
  observation_domain = domain;
  sets = (2, form 256 t.ies) ∷ (256, flatten ws) ∷ [];
}

exporter-IsCounted : (ts : ℕ → PlacementTemplate) (domain : ℕ) → IsCounted (exporter ts domain) []
unfolding exporter
exporter-IsCounted ts domain = record {
  finishes = inl (refl, refl);
  counted = refl;
  announced = refl;
  computed = tt;
}

message-sent_message :
    (ts : ℕ → PlacementTemplate) (e : Exporter) (a now domain : ℕ) (w : List ℕ) (ws : List (List ℕ))
    → e.templates ≡ with_template ts a (announced (ts a))
    → e.new_templates ≡ a ∷ []
    → e.sequence_number ≡ 0
    → e.observation_domain ≡ domain
    → message e now (e.templates a).template_id (0 ∷ 0 ∷ 0 ∷ 0 ∷ (w ++ flatten ws)) []
      ≡ sent_message (ts a) now domain (w ∷ ws)
unfolding flatten
message-sent_message ts e a now domain w ws templates new number same =
    let own : with_template ts a (announced (ts a)) a ≡ announced (ts a) =
      ap (λ (z : Bool). if z then announced (ts a) else ts a) (==_refl a) in
    let mine : e.templates a ≡ announced (ts a) = ap (λ f. f a) templates ∙ own in
    let body : wire_of (e.templates a).buf ++ [] ≡ form 256 (ts a).ies =
      ap (λ t. wire_of t.buf ++ []) mine ∙ append-nil (form 256 (ts a).ies) in
    let id : (e.templates a).template_id ≡ 256 = ap (λ t. t.template_id) mine in
    rw (new, number, same, body, id) refl

sent_message-IsSmall :
    (t : PlacementTemplate) (now domain : ℕ) (ws : List (List ℕ))
    → 16 + length (all_sets (sent_message t now domain ws).sets) < 2 ^ 16
    → now < 2 ^ 32
    → domain < 2 ^ 32
    → IsSmall (sent_message t now domain ws)
sent_message-IsSmall t now domain ws total time known =
    let body = form 256 t.ies in
    let first = length-set_octets 2 body in
    let second = length-set_octets 256 (flatten ws) in
    let both = length-append (set_octets (2, body)) (set_octets (256, flatten ws) ++ []) in
    let last = ap length (append-nil (set_octets (256, flatten ws))) in
    record {
      length_small = total;
      time_small = time;
      sequence_small = omega arith;
      domain_small = known;
      sets_small = (
        (omega arith, omega (arith, total, first, second, both, last)),
        ((omega arith, omega (arith, total, first, second, both, last)), tt),
      );
    }

flush-sent_message :
    (ch : ContentHandler) (s : ch.State) (ts : ℕ → PlacementTemplate) (e : Exporter)
    (a now domain : ℕ) (w : List ℕ) (ws : List (List ℕ))
    → IsBalanced e (0 ∷ 0 ∷ 0 ∷ 0 ∷ (w ++ flatten ws)) []
    → (e.templates ≡ with_template ts a (announced (ts a)))
      × (e.new_templates ≡ a ∷ [])
      × (e.current_template ≡ some a)
      × (e.sequence_number ≡ 0)
      × (e.observation_domain ≡ domain)
      × (e.written ≡ [])
    → e.n_message_octets ≤ 65535
    → now < 2 ^ 32
    → domain < 2 ^ 32
    → (e' : Exporter) × (bytes : List ℕ) × (flush (some now) e ≡ ok e')
      × (e'.written ≡ bytes ∷ [])
      × (parse buffer_source ch 2 (buffer bytes) s
          ≡ ch.start_session s
            >=> deliver_messages ch (sent_message (ts a) now domain (w ∷ ws) ∷ []))
unfolding flatten
flush-sent_message ch s ts e a now domain w ws v (templates, new, cur, number, same, nothing) fits
      time known =
    let sent = message-sent_message ts e a now domain w ws templates new number same in
    let whole = 0 ∷ 0 ∷ 0 ∷ 0 ∷ (w ++ flatten ws) in
    let total = sets-length e now (e.templates a).template_id whole [] v in
    let small =
      sent_message-IsSmall (ts a) now domain (w ∷ ws)
        (omega (arith, total, ap (λ (k : Message). length (all_sets k.sets)) sent, fits)) time
        known in
    let (e', bytes, flushed, written, parsed) =
      flush-parse ch s e a now whole [] v cur (subst IsSmall (sym sent) small) in
    (
      e',
      bytes,
      flushed,
      written ∙ ap (λ l. bytes ∷ l) nothing,
      parsed ∙ ap (λ k. ch.start_session s >=> deliver_messages ch (k ∷ [])) sent,
    )

-- A program makes an exporter, places records of one template, and calls flush. If the wire form
-- of the template is not yet computed, its elements were registered once each, the sums that the
-- template keeps of its sizes are those of its elements, as registration leaves them where no two
-- elements have the same enterprise and number, a plan is made for the template, whose decisions
-- have partners to decode at every record, and all fits one message, which is no longer than the
-- destination prefers, then every call succeeds, one message is written, and the parser, over any
-- handler, hands over from its octets the specifiers of the template under the ID 256 and one
-- data set for it, which consists of the records in order, each of which DecodePlan::execute
-- reads back, whatever follows.
pub place_all-parse :
    (c : Machine) (es : List Plan.Decision) (ds : List Decision) (ch : ContentHandler)
    (s : ch.State) (ts : ℕ → PlacementTemplate) (domain a now limit : ℕ) (x : Context) (m : Memory)
    (rs : List (Context × Memory))
    → IsPlain (ts a)
    → encode_plan x.little_endian (announced (ts a)) ≡ ok es
    → IsLaid (ts a)
    → All (IsPlaceable c es ds limit) ((x, m) ∷ rs)
    → 24 + length (form 256 (ts a).ies) + all_size c es ds ((x, m) ∷ rs) ≤ limit
    → limit ≤ 65535
    → now < 2 ^ 32
    → domain < 2 ^ 32
    → (e e' : Exporter) × (bytes : List ℕ) × (ws : List (List ℕ)) × (place_all
          ((x, m) ∷ rs)
          a
          (exporter ts domain)
        ≡ ok e)
      × (flush (some now) e ≡ ok e')
      × (e'.written ≡ bytes ∷ [])
      × (parse buffer_source ch 2 (buffer bytes) s
          ≡ ch.start_session s >=> deliver_messages ch (sent_message (ts a) now domain ws ∷ []))
      × Arrive c es ds ((x, m) ∷ rs) ws
unfolding exporter contains insert flatten
place_all-parse c es ds ch s ts domain a now limit x m rs plain planned laid ((paired, wide), more)
      fits bound time known =
    let fresh = exporter ts domain in
    let t = announced (ts a) in
    let wire = wire_template-IsPlain (ts a) 256 plain (λ (e : 256 ≡ 0). omega arith) in
    let (w, placed, long, v, back) =
      place_values-first c x a t (form 256 (ts a).ies) es ds m fresh []
        (exporter-IsCounted ts domain) refl refl refl wire refl refl planned paired laid
        (omega (arith, fits, wide)) (omega (arith, fits, bound)) in
    let own : with_template ts a t a ≡ t = ap (λ (z : Bool). if z then t else ts a) (==_refl a) in
    let Made : PlacementTemplate → Type 0 =
      λ u. IsLaid u × (encode_plan x.little_endian u ≡ ok es) in
    let (laid', made) =
      subst Made (sym own) (record { fixed = laid.fixed; varlen = laid.varlen }, planned) in
    let (e, ws, done, v', counted, kept, arrive) =
      place_all-IsBalanced c es ds x.little_endian rs a limit (with_set fresh a t es w [])
        (0 ∷ 0 ∷ 0 ∷ 0 ∷ w) [] v refl refl laid' made more (omega (arith, fits, long)) bound in
    let (e', bytes, flushed, written, parsed) =
      flush-sent_message ch s ts e a now domain w ws v' kept
        (omega (arith, counted, long, fits, bound)) time known in
    (
      e,
      e',
      bytes,
      w ∷ ws,
      rw placed done,
      flushed,
      written,
      parsed,
      (λ rest. rw long (back rest), arrive),
    )
