-- ===== src/Ipfix/Content.antt =====
-- lib/ContentHandler.h: the receiver of a parser's events, and how lib/PlacementContentHandler.cpp
-- implements it.
use libfc.Prelude.{ℕ, List}
use libfc.Errors.{Call, return_ok}
use libfc.Handler.State.{MessageHeader, Handler, start_message, end_message}
use libfc.Handler.Templates.{start_template_set, start_options_template_set}
use libfc.Handler.Data.{start_data_set}
use libfc.Decode.Plan.{Machine}

pub record ContentHandler : Type 1 where
  pub State : Type 0
  pub start_session : State → Call State
  pub end_session : State → Call State
  pub start_message : MessageHeader → State → Call State
  pub end_message : State → Call State
  pub start_template_set : ℕ → List ℕ → State → Call State
  pub end_template_set : State → Call State
  pub start_options_template_set : ℕ → List ℕ → State → Call State
  pub end_options_template_set : State → Call State
  pub start_data_set : ℕ → List ℕ → State → Call State
  pub end_data_set : State → Call State

-- PlacementContentHandler: what it does not mention here only returns.
abbrev pub placement_content_handler : Machine → ContentHandler
placement_content_handler c = record {
  State = Handler;
  start_session = return_ok;
  end_session = return_ok;
  start_message = start_message;
  end_message = end_message;
  start_template_set = λ id. start_template_set;
  end_template_set = return_ok;
  start_options_template_set = λ id. start_options_template_set;
  end_options_template_set = return_ok;
  start_data_set = start_data_set c;
  end_data_set = return_ok;
}
