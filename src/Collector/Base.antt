-- ===== src/Collector/Base.antt =====
-- lib/PlacementCollector.cpp, with the constructor of lib/PlacementContentHandler.cpp.
use libfc.Prelude.{ℕ, true, [], Option, none, some, undefined}
use libfc.Errors.{Call}
use libfc.Info.Model.{InfoModel}
use libfc.Octets.{Memory}
use libfc.Placement.Template.{PlacementTemplate}
use libfc.Decode.Plan.{Machine}
use libfc.Handler.State.{Handler, Collector}
use libfc.Ipfix.Source.{InputSource}
use libfc.Ipfix.Content.{placement_content_handler}
use libfc.Handler
use libfc.Ipfix
use libfc.V9

pub data Protocol : Type 0 where
  ipfix netflowv9 netflowv5 : Protocol

-- The parsers that `ir` can point to.
pub data MessageParser : Type 0 where
  ipfix_parser v9_parser : MessageParser

-- PlacementContentHandler's constructor; it leaves the numbers of the current template unset. The
-- information model and the memory are shared with it.
abbrev pub new_handler : InfoModel → Memory → Handler
new_handler model memory = record {
  observation_domain = 0;
  info_model = model;
  wire_templates = [];
  placement_templates = [];
  start_message_handler = none;
  unhandled_data_set_handler = none;
  current_wire_template = none;
  current_template_id = 0;
  current_field_count = 0;
  current_field_no = 0;
  parse_is_good = true;
  incomplete_template_ids = [];
  unmatched_template_ids = [];
  memory = memory;
}

-- `ir` is `none` for a null pointer; `self` are the callbacks of the object, a class that is derived
-- from this one.
pub record PlacementCollector : Type 0 where
  pub ir : Option MessageParser
  pub self : Collector
  pub d : Handler

unfoldable pub parser_of : Protocol → Option MessageParser
parser_of ipfix = some ipfix_parser
parser_of netflowv9 = some v9_parser
parser_of netflowv5 = none

-- PlacementCollector::PlacementCollector.
unfoldable pub new_collector : Protocol → Collector → InfoModel → Memory → PlacementCollector
new_collector protocol self model memory = record {
  ir = parser_of protocol;
  self = self;
  d = record (new_handler model memory) { start_message_handler = some self };
}

-- PlacementCollector::register_placement_template, for the template at an address.
unfoldable pub register_placement_template :
    ℕ → PlacementTemplate → PlacementCollector → PlacementCollector
register_placement_template a t pc = record pc {
  d = Handler.State.register_placement_template a t pc.self pc.d;
}

-- PlacementCollector::give_me_unhandled_data_sets.
unfoldable pub give_me_unhandled_data_sets : PlacementCollector → PlacementCollector
give_me_unhandled_data_sets pc = record pc {
  d = record pc.d { unhandled_data_set_handler = some pc.self };
}

-- PlacementCollector::collect: the state that is left is that of the content handler. Without a parser
-- a null pointer is used.
module _ (c : Machine) (is : InputSource) where
  unfoldable pub collect : ℕ → ℕ → is.State → PlacementCollector → Call Handler
  collect fuel scan_fuel src pc = elim pc.ir [
    | none ↦ undefined
    | some ipfix_parser ↦ Ipfix.Parser.parse is (placement_content_handler c) fuel src pc.d
    | some v9_parser ↦ V9.Parser.parse is (placement_content_handler c) fuel scan_fuel src pc.d
  ]
