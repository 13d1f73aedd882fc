-- ===== src/Exporter/State.antt =====
-- lib/PlacementExporter.h, and the constructor and finish_current_data_set of
-- lib/PlacementExporter.cpp.
use libfc.Prelude.{
  ℕ, Bool, List, [], ◌∷◌, ◌++◌, Option, none, some, ltb, ◌==◌, ◌||◌, if◌then◌else◌, length, drop,
  Outcome, ok, undefined, ◌>>=◌, false,
}
use libfc.Constants.{ipfix_message_header_len}
use libfc.Wire.{encode16}
use libfc.Placement.Template.{PlacementTemplate}
use libfc.Encode.Plan.{Decision}

-- `templates` are the template objects by their addresses. `data_sets` are the iovecs behind the
-- first two, the newest first, each up to its iov_len; the first two are null until flush fills
-- them. `new_templates` is the std::set in the order of the addresses. `written` are the messages
-- that the destination was given, the newest first.
pub record Exporter : Type 0 where
  pub templates : ℕ → PlacementTemplate
  pub current_template : Option ℕ
  pub current_template_id : ℕ
  pub sequence_number : ℕ
  pub observation_domain : ℕ
  pub n_message_octets : ℕ
  pub template_set_size : ℕ
  pub plan : Option (List Decision)
  pub data_sets : List (List ℕ)
  pub used_templates : List ℕ
  pub new_templates : List ℕ
  pub written : List (List ℕ)

-- The constructor.
unfoldable pub exporter : (ℕ → PlacementTemplate) → ℕ → Exporter
exporter templates domain = record {
  templates = templates;
  current_template = none;
  current_template_id = 255;
  sequence_number = 0;
  observation_domain = domain;
  n_message_octets = ipfix_message_header_len;
  template_set_size = 0;
  plan = none;
  data_sets = [];
  used_templates = [];
  new_templates = [];
  written = [];
}

unfoldable pub contains : List ℕ → ℕ → Bool
contains [] a = false
contains (x ∷ xs) a = (x == a) || contains xs a

-- The insertion into an ordered set of addresses.
unfoldable pub insert : ℕ → List ℕ → List ℕ
insert a [] = a ∷ []
insert a (x ∷ xs) = if x == a then x ∷ xs else if ltb a x then a ∷ x ∷ xs else x ∷ insert a xs

-- The header of a set that holds something: the template ID and the length.
unfoldable pub finish_set : ℕ → List ℕ → List ℕ
finish_set id l = encode16 id ++ encode16 (length l) ++ drop 4 l

unfoldable pub finish_at : (ℕ → PlacementTemplate) → Option ℕ → List ℕ → Outcome (List ℕ)
finish_at templates none l = if ltb 0 (length l) then undefined else ok l
finish_at templates (some t) l =
    ok (if ltb 0 (length l) then finish_set (templates t).template_id l else l)

-- PlacementExporter::finish_current_data_set, where the last iovec is a data set or the null template
-- set.
unfoldable pub finish_current_data_set : Exporter → List (List ℕ) → Outcome (List (List ℕ))
finish_current_data_set e [] = ok []
finish_current_data_set e (l ∷ ls) = do
  l' ← finish_at e.templates e.current_template l
  ok (l' ∷ ls)
