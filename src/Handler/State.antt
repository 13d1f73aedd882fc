-- ===== src/Handler/State.antt =====
-- lib/PlacementContentHandler.h and the members of lib/PlacementContentHandler.cpp that are not
-- about the content of sets.
use libfc.Prelude.{
  ℕ, ◌+◌, ◌*◌, ◌^◌, ◌%◌, Bool, true, false, List, [], ◌∷◌, ◌++◌, Option, none, some, ltb, ◌==◌,
  ◌&&◌, not, if◌then◌else◌, ok, assert, ◌>>◌,
}
use libfc.Constants.{ipfix_version, ipfix_min_message_len}
use libfc.Errors.{
  Reply, Call, return_ok, return_error, recoverable, ipfix_basetime, short_message, Error,
}
use libfc.Info.Template.{IeTemplate}
use libfc.Info.Model.{InfoModel}
use libfc.Octets.{Memory}
use libfc.Placement.Template.{PlacementTemplate}

-- What start_message is told.
pub record MessageHeader : Type 0 where
  pub version : ℕ
  pub length : ℕ
  pub export_time : ℕ
  pub sequence_number : ℕ
  pub observation_domain : ℕ
  pub base_time : ℕ

-- The callbacks of a PlacementCollector, a class that the user derives from. They see and may
-- change the user's memory.
pub record Collector : Type 0 where
  pub start_message : MessageHeader → Memory → Reply × Memory
  pub start_placement : PlacementTemplate → Memory → Reply × Memory
  pub end_placement : PlacementTemplate → Memory → Reply × Memory
  pub unhandled_data_set : ℕ → ℕ → List ℕ → Memory → Reply × Memory

-- `memory` is what the placements point to. The cache matched_templates is left out: nothing sets
-- use_matched_template_cache, so it is never read.
pub record Handler : Type 0 where
  pub observation_domain : ℕ
  pub info_model : InfoModel
  pub wire_templates : List (ℕ × IeTemplate)
  pub placement_templates : List (ℕ × PlacementTemplate × Collector)
  pub start_message_handler : Option Collector
  pub unhandled_data_set_handler : Option Collector
  pub current_wire_template : Option IeTemplate
  pub current_template_id : ℕ
  pub current_field_count : ℕ
  pub current_field_no : ℕ
  pub parse_is_good : Bool
  pub incomplete_template_ids : List ℕ
  pub unmatched_template_ids : List ℕ
  pub memory : Memory

-- The test `current_wire_template == 0`.
abbrev pub is_idle : Handler → Bool
is_idle h = elim h.current_wire_template [ none ↦ true | some t ↦ false ]

-- CH_REPORT_ERROR.
abbrev pub report_error : Error → Handler → Call Handler
report_error e h = return_error recoverable e (record h { parse_is_good = false })

-- A callback on the memory of the handler.
unfoldable pub call_back : (Memory → Reply × Memory) → Handler → Call Handler
call_back f h = let (r, m) = f h.memory in ok (r, record h { memory = m })

-- PlacementContentHandler::make_template_key.
unfoldable pub make_template_key : ℕ → ℕ → ℕ
make_template_key domain tid = domain * 2 ^ 16 % 2 ^ 64 + tid

-- PlacementContentHandler::find_wire_template, on the std::map.
unfoldable pub find_key : List (ℕ × IeTemplate) → ℕ → Option IeTemplate
find_key [] key = none
find_key ((k, t) ∷ m) key = if k == key then some t else find_key m key

unfoldable pub find_wire_template : Handler → ℕ → Option IeTemplate
find_wire_template h id = find_key h.wire_templates (make_template_key h.observation_domain id)

-- `wire_templates[key] = t`.
unfoldable pub set_key : List (ℕ × IeTemplate) → ℕ → IeTemplate → List (ℕ × IeTemplate)
set_key [] key t = (key, t) ∷ []
set_key ((k, u) ∷ m) key t = if k == key then (k, t) ∷ m else (k, u) ∷ set_key m key t

-- The callback of start_message, if there is one.
unfoldable pub notify_start : Option Collector → MessageHeader → Handler → Call Handler
notify_start none header h = return_ok h
notify_start (some c) header h = call_back (c.start_message header) h

-- PlacementContentHandler::start_message.
unfoldable pub start_message : MessageHeader → Handler → Call Handler
start_message header h = do
  assert (is_idle h)
  if (header.version == ipfix_version) && not (header.base_time == 0)
      then report_error ipfix_basetime h
      else if (header.version == ipfix_version) && ltb header.length ipfix_min_message_len
      then report_error short_message h
      else notify_start h.start_message_handler header
          (record h { observation_domain = header.observation_domain })

-- PlacementContentHandler::end_message.
unfoldable pub end_message : Handler → Call Handler
end_message h = do assert (is_idle h); return_ok h

-- `callbacks[placement_template] = callback`, for the template at the address `a`.
unfoldable pub set_callback :
    ℕ
    → Collector
    → List (ℕ × PlacementTemplate × Collector)
    → List (ℕ × PlacementTemplate × Collector)
set_callback a c [] = []
set_callback a c ((b, t, old) ∷ rest) = (b, t, if a == b then c else old) ∷ set_callback a c rest

-- PlacementContentHandler::register_placement_template, for the template `t` at the address `a`.
unfoldable pub register_placement_template : ℕ → PlacementTemplate → Collector → Handler → Handler
register_placement_template a t c h = record h {
  placement_templates = set_callback a c h.placement_templates ++ ((a, t, c) ∷ []);
}
