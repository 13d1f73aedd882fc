-- ===== src/Collector/Unhandled.antt =====
-- A data set of a template that is not known, at the C interface of lib/libfc.cpp.
use libfc.Prelude.{
  le→leb, length-append, ℕ, ◌+◌, ◌≡◌, ◌≤◌, ◌<◌, refl, ◌∙◌, arith, false, List, [], ◌∷◌, none, some,
  All, length, undefined, ltb, ◌==◌,
}
use libfc.Errors.{return_ok}
use libfc.Info.Model.{InfoModel}
use libfc.Octets.{Memory}
use libfc.Placement.Template.{PlacementTemplate}
use libfc.Decode.Plan.{Machine}
use libfc.Handler
use libfc.Handler.State.{
  Handler, MessageHeader, Collector, start_message, notify_start, call_back, find_wire_template,
  find_key,
}
use libfc.Handler.Data.{start_data_set, unhandled, after_unhandled}
use libfc.Ipfix.Source.{buffer, buffer_source}
use libfc.Ipfix.Sets.{all_sets, set_octets, length-set_octets, deliver_all}
use libfc.Ipfix.Parser.{ipfix_set_ids}
use libfc.Ipfix.Content.{placement_content_handler}
use libfc.Ipfix.Stream.{Message, IsSmall, all_messages, header_of, parse-all_messages}
use libfc.Collector.Base.{
  PlacementCollector, ipfix, ipfix_parser, new_collector, register_placement_template,
  give_me_unhandled_data_sets, collect, parser_of,
}
use libfc.Collector.Binding.{Callbacks, c_binding, new_binding}

-- A collector of the C interface for IPFIX, before its first message.
pub record IsFresh (callbacks : Callbacks) (pc : PlacementCollector) : Type 0 where
  pub parser : pc.ir ≡ some ipfix_parser
  pub self : pc.self ≡ c_binding callbacks
  pub idle : pc.d.current_wire_template ≡ none
  pub no_templates : pc.d.wire_templates ≡ []
  pub notified : pc.d.start_message_handler ≡ some (c_binding callbacks)
  pub unhandled : pc.d.unhandled_data_set_handler ≡ some (c_binding callbacks)

pub new_binding-IsFresh :
    (callbacks : Callbacks) (model : InfoModel) (memory : Memory)
    → IsFresh callbacks (new_binding ipfix callbacks model memory)
unfolding new_binding give_me_unhandled_data_sets new_collector parser_of
new_binding-IsFresh callbacks model memory = record {
  parser = refl;
  self = refl;
  idle = refl;
  no_templates = refl;
  notified = refl;
  unhandled = refl;
}

pub register_placement_template-IsFresh :
    (callbacks : Callbacks) (a : ℕ) (t : PlacementTemplate) (pc : PlacementCollector)
    → IsFresh callbacks pc
    → IsFresh callbacks (register_placement_template a t pc)
unfolding register_placement_template Handler.State.register_placement_template
register_placement_template-IsFresh callbacks a t pc v = record {
  parser = v.parser;
  self = v.self;
  idle = v.idle;
  no_templates = v.no_templates;
  notified = v.notified;
  unhandled = v.unhandled;
}

start_message-fresh :
    (callbacks : Callbacks) (pc : PlacementCollector) (m : MessageHeader)
    → IsFresh callbacks pc
    → m.base_time ≡ 0
    → 20 ≤ m.length
    → start_message m pc.d ≡ return_ok (record pc.d { observation_domain = m.observation_domain })
unfolding start_message notify_start call_back
start_message-fresh callbacks pc m v b l =
    let long : ltb m.length 20 ≡ false = ground arith in
    rw (v.idle, b, long, v.notified, start_message) (ground arith)

start_data_set_unknown :
    (c : Machine) (callbacks : Callbacks) (id : ℕ) (content : List ℕ) (h : Handler)
    → find_wire_template h id ≡ none
    → h.unhandled_data_set_handler ≡ some (c_binding callbacks)
    → start_data_set c id content h ≡ undefined
unfolding start_data_set unhandled after_unhandled
start_data_set_unknown c callbacks id content h e u = rw (e, u, start_data_set) refl

find_none : (id : ℕ) (h : Handler) → h.wire_templates ≡ [] → find_wire_template h id ≡ none
unfolding find_wire_template find_key
find_none id h e = rw e refl

-- The first set is not delivered, and none behind it.
deliver_unknown :
    (c : Machine) (callbacks : Callbacks) (id : ℕ) (content : List ℕ) (sets : List (ℕ × List ℕ))
    (h : Handler)
    → find_wire_template h id ≡ none
    → h.unhandled_data_set_handler ≡ some (c_binding callbacks)
    → 256 ≤ id
    → deliver_all ipfix_set_ids (placement_content_handler c) ((id, content) ∷ sets) h ≡ undefined
deliver_unknown c callbacks id content sets h e u l =
    let not_template : (id == 2) ≡ false = ground arith in
    let not_options : (id == 3) ≡ false = ground arith in
    rw
      (
        not_template,
        not_options,
        le→leb 256 id l,
        start_data_set_unknown c callbacks id content h e u,
      )
      refl

long_enough :
    (sets sets' : List (ℕ × List ℕ)) (id : ℕ) (content : List ℕ)
    → sets ≡ (id, content) ∷ sets'
    → 20 ≤ 16 + length (all_sets sets)
long_enough sets sets' id content e =
    let total = length-append (set_octets (id, content)) (all_sets sets') in
    let first = length-set_octets id content in rw e (omega arith)

-- The C interface asks for data sets of unknown templates, and its callback for them returns no error
-- context, which the content handler takes for granted. So a buffer of IPFIX messages whose first set
-- is a data set makes a collector that has seen no template use a null pointer, whatever it has
-- registered and whatever follows.
pub collect_unknown :
    (c : Machine) (callbacks : Callbacks) (pc : PlacementCollector) (m : Message)
    (ms : List Message) (id : ℕ) (content : List ℕ) (sets : List (ℕ × List ℕ)) (fuel scan_fuel : ℕ)
    → IsFresh callbacks pc
    → m.sets ≡ (id, content) ∷ sets
    → 256 ≤ id
    → All IsSmall (m ∷ ms)
    → length (m ∷ ms) < fuel
    → collect c buffer_source fuel scan_fuel (buffer (all_messages (m ∷ ms))) pc ≡ undefined
unfolding collect
collect_unknown c callbacks pc m ms id content sets fuel k v e l small enough =
    let ch = placement_content_handler c in
    let delivered = parse-all_messages ch (m ∷ ms) fuel pc.d small enough in
    let started =
      start_message-fresh callbacks pc (header_of m) v refl
        (long_enough m.sets sets id content e) in
    let h = record pc.d { observation_domain = m.observation_domain } in
    let first =
      deliver_unknown c callbacks id content sets h (find_none id h v.no_templates) v.unhandled l in
    rw (v.parser, collect) (delivered ∙ rw (started, e, first) refl)
