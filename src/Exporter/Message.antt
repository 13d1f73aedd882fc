-- ===== src/Exporter/Message.antt =====
-- What PlacementExporter::flush writes, as a message that the parser reads.
use mathlib.Core.List.{append-nil, append_assoc, flatten, reverse-cons}
use libfc.Prelude.{
  ℕ, ◌+◌, ◌-◌, ◌%◌, ◌^◌, ◌≡◌, ◌≤◌, refl, ap, ◌∙◌, arith, List, [], ◌∷◌, ◌++◌, reverse, map, Option,
  none, some, true, ltb, leb, length, length-append, length-drop, drop, All, ok, le→leb, lt→ltb,
}
use libfc.Wire.{encode16}
use libfc.Placement.Template.{PlacementTemplate}
use libfc.Placement.Wire.{wire_template}
use libfc.Exporter.State.{Exporter, finish_set, finish_at, finish_current_data_set}
use libfc.Exporter.Flush.{
  wire_octets, write_templates, template_set, message_header, message_body, flush_at, flush,
}
use libfc.Ipfix.Sets.{set_octets, all_sets}
use libfc.Ipfix.Stream.{Message, all_messages}

abbrev pub total : List (List ℕ) → ℕ
total [] = 0
total (l ∷ ls) = length l + total ls

-- The octets of the wire form, if it has been computed.
abbrev pub wire_of : Option (List ℕ) → List ℕ
wire_of none = []
wire_of (some b) = b

abbrev pub pending : (ℕ → PlacementTemplate) → List ℕ → List ℕ
pending templates [] = []
pending templates (a ∷ rest) = wire_of (templates a).buf ++ pending templates rest

-- The sets of new templates: none or one.
abbrev pub new_sets : (ℕ → PlacementTemplate) → List ℕ → List (ℕ × List ℕ)
new_sets templates [] = []
new_sets templates (a ∷ rest) = (2, pending templates (a ∷ rest)) ∷ []

abbrev pub IsComputed : PlacementTemplate → Type 0
IsComputed t = (b : List ℕ) × (t.buf ≡ some b)

write_templates-pending :
    (templates : ℕ → PlacementTemplate) (size : ℕ) (out : List ℕ) (addresses : List ℕ)
    → All (λ a. IsComputed (templates a)) addresses
    → length out + length (pending templates addresses) ≤ size
    → write_templates templates size out addresses ≡ ok (out ++ pending templates addresses)
unfolding write_templates wire_template wire_octets
write_templates-pending ts size out [] v l = ground (arith, append-nil out)
write_templates-pending ts size out (a ∷ rest) ((b, e), v) l =
    let same : pending ts (a ∷ rest) ≡ b ++ pending ts rest =
      ap (λ (o : Option (List ℕ)). wire_of o ++ pending ts rest) e in
    let sizes = ap length same ∙ length-append b (pending ts rest) in
    let room : leb (length out + length b) size ≡ true = le→leb _ _ (omega (arith, sizes)) in
    let more =
      write_templates-pending ts size (out ++ b) rest v
        (omega (arith, sizes, length-append out b)) in
    ground (arith, e, room, more, same, append_assoc out b (pending ts rest))

-- The octets of the sets of new templates, and their number.
abbrev pub set_size : (ℕ → PlacementTemplate) → List ℕ → ℕ
set_size templates addresses = length (all_sets (new_sets templates addresses))

-- The count of octets agrees with what there is to be written: the header, the template set and the
-- data sets; every new template has its wire form, every data set but the last is framed, and the last
-- has room for its header.
pub record IsBalanced (e : Exporter) (open_set : List ℕ) (framed : List (ℕ × List ℕ)) : Type 0 where
  pub sets : e.data_sets ≡ open_set ∷ map set_octets framed
  pub opened : 4 ≤ length open_set
  pub counted : e.n_message_octets ≡ 16 + e.template_set_size + total e.data_sets
  pub announced : e.template_set_size ≡ set_size e.templates e.new_templates
  pub computed : All (λ a. IsComputed (e.templates a)) e.new_templates

template_set-new_sets :
    (e : Exporter) (addresses : List ℕ)
    → All (λ a. IsComputed (e.templates a)) addresses
    → e.template_set_size ≡ set_size e.templates addresses
    → template_set e addresses ≡ ok (all_sets (new_sets e.templates addresses))
unfolding template_set encode16
template_set-new_sets e [] v s = refl
template_set-new_sets e (a ∷ rest) v s =
    let body = pending e.templates (a ∷ rest) in
    let size : e.template_set_size ≡ 4 + length body = ground (arith, s, append-nil body) in
    let start = encode16 2 ++ encode16 e.template_set_size in
    let room : leb 4 e.template_set_size ≡ true = le→leb _ _ (omega (arith, size)) in
    let written =
      write_templates-pending e.templates e.template_set_size start (a ∷ rest) v
        (omega (arith, size)) in
    let none_left : e.template_set_size - length (start ++ body) ≡ 0 =
      omega (arith, size, length-append start body) in
    ground (arith, room, written, none_left, size, append-nil body, append-nil (start ++ body))

-- A finished set is framed.
pub finish_set-set_octets :
    (id : ℕ) (l : List ℕ) → 4 ≤ length l → finish_set id l ≡ set_octets (id, drop 4 l)
unfolding finish_set
finish_set-set_octets id l h =
    let size : 4 + length (drop 4 l) ≡ length l = omega (arith, length-drop 4 l) in
    ground (arith, size, append_assoc (encode16 id) (encode16 (length l)) (drop 4 l))

all_sets-append : (xs ys : List (ℕ × List ℕ)) → all_sets (xs ++ ys) ≡ all_sets xs ++ all_sets ys
all_sets-append [] ys = refl
all_sets-append (x ∷ xs) ys =
    ground (arith, all_sets-append xs ys, append_assoc (set_octets x) (all_sets xs) (all_sets ys))

flatten-append : (xs ys : List (List ℕ)) → flatten (xs ++ ys) ≡ flatten xs ++ flatten ys
unfolding flatten
flatten-append [] ys = refl
flatten-append (x ∷ xs) ys =
    ground (arith, flatten-append xs ys, append_assoc x (flatten xs) (flatten ys))

-- The data sets in the order of the message.
flatten-set_octets :
    (sets : List (ℕ × List ℕ)) → flatten (reverse (map set_octets sets)) ≡ all_sets (reverse sets)
unfolding flatten
flatten-set_octets [] = refl
flatten-set_octets (s ∷ sets) = ground (
  arith,
  flatten-set_octets sets,
  reverse-cons (set_octets s) (map set_octets sets),
  reverse-cons s sets,
  flatten-append (reverse (map set_octets sets)) (set_octets s ∷ []),
  all_sets-append (reverse sets) (s ∷ []),
)

total-set_octets :
    (sets : List (ℕ × List ℕ)) → total (map set_octets sets) ≡ length (all_sets (reverse sets))
total-set_octets [] = refl
total-set_octets (s ∷ sets) =
    let back : all_sets (reverse (s ∷ sets)) ≡ all_sets (reverse sets) ++ (set_octets s ++ []) =
      ap all_sets (reverse-cons s sets) ∙ all_sets-append (reverse sets) (s ∷ []) in
    omega (
      arith,
      total-set_octets sets,
      ap length back,
      length-append (all_sets (reverse sets)) (set_octets s ++ []),
      ap length (append-nil (set_octets s)),
    )

-- The message that stands in the exporter, at the time `now`, where the last data set is for the
-- template ID `id`.
abbrev pub message : Exporter → ℕ → ℕ → List ℕ → List (ℕ × List ℕ) → Message
message e now id open_set framed = record {
  export_time = now;
  sequence_number = e.sequence_number;
  observation_domain = e.observation_domain;
  sets = new_sets e.templates e.new_templates ++ reverse ((id, drop 4 open_set) ∷ framed);
}

pub sets-length :
    (e : Exporter) (now id : ℕ) (open_set : List ℕ) (framed : List (ℕ × List ℕ))
    → IsBalanced e open_set framed
    → 16 + length (all_sets (message e now id open_set framed).sets) ≡ e.n_message_octets
unfolding encode16
sets-length e now id open_set framed v =
    let news = new_sets e.templates e.new_templates in
    let all = (id, drop 4 open_set) ∷ framed in
    omega (
      arith,
      v.counted,
      v.announced,
      v.opened,
      ap total v.sets,
      length-drop 4 open_set,
      total-set_octets all,
      ap length (all_sets-append news (reverse all)),
      length-append (all_sets news) (all_sets (reverse all)),
    )

message_body-all_sets :
    (e : Exporter) (c now : ℕ) (open_set : List ℕ) (framed : List (ℕ × List ℕ))
    → IsBalanced e open_set framed
    → e.current_template ≡ some c
    → message_body e (all_sets (new_sets e.templates e.new_templates)) e.data_sets
      ≡ ok (all_sets (message e now (e.templates c).template_id open_set framed).sets)
unfolding message_body finish_current_data_set finish_at
message_body-all_sets e c now open_set framed v h =
    let id = (e.templates c).template_id in
    let all = (id, drop 4 open_set) ∷ framed in
    let filled : ltb 0 (length open_set) ≡ true = lt→ltb _ _ (omega (arith, v.opened)) in
    ground (
      arith,
      v.sets,
      h,
      filled,
      finish_set-set_octets id open_set v.opened,
      flatten-set_octets all,
      all_sets-append (new_sets e.templates e.new_templates) (reverse all),
    )

-- Where the count of octets agrees with what is to be written and there is a data set, flush writes
-- one message that the parser takes for what it is: its header has the exporter's numbers and the
-- length of the whole message, and behind it stand the set of new templates, if there are any, and
-- the data sets in order, each framed with its ID and its length. The exporter starts afresh with
-- the next sequence number.
pub flush-message :
    (e : Exporter) (c now : ℕ) (open_set : List ℕ) (framed : List (ℕ × List ℕ))
    → IsBalanced e open_set framed
    → e.current_template ≡ some c
    → flush (some now) e
      ≡ ok (record e {
        sequence_number = (e.sequence_number + 1) % 2 ^ 32;
        n_message_octets = 16;
        template_set_size = 0;
        data_sets = [];
        new_templates = [];
        written =
            all_messages (message e now (e.templates c).template_id open_set framed ∷ [])
            ∷ e.written;
      })
unfolding flush flush_at message_header
flush-message e c now open_set framed v h =
    let m = message e now (e.templates c).template_id open_set framed in
    let size = sets-length e now (e.templates c).template_id open_set framed v in
    let long : ltb 16 e.n_message_octets ≡ true =
      lt→ltb _ _ (omega (arith, v.counted, ap total v.sets, v.opened)) in
    ground (
      arith,
      long,
      template_set-new_sets e e.new_templates v.computed v.announced,
      message_body-all_sets e c now open_set framed v h,
      size,
      append-nil (all_sets m.sets),
    )
