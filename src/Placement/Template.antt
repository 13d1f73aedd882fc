-- ===== src/Placement/Template.antt =====
-- lib/PlacementTemplate.cpp: registration, lookup and matching.
use libfc.Prelude.{
  ℕ, ◌+◌, Bool, true, false, List, [], ◌∷◌, ◌++◌, Option, none, some, ltb, ◌==◌, ◌&&◌,
  if◌then◌else◌, length,
}
use libfc.Info.Types.{InfoElement, ipfix_varlen, matches}
use libfc.Info.Template.{contains}

-- PlacementTemplate::PlacementInfo; `address` is the location of the value.
pub record PlacementInfo : Type 0 where
  pub ie : InfoElement
  pub address : ℕ
  pub size_on_wire : ℕ

-- `placements` is the std::map, in the order of its keys, the addresses of the elements.
-- `buf` is `none` until the wire form is computed.
pub record PlacementTemplate : Type 0 where
  pub placements : List (InfoElement × PlacementInfo)
  pub ies : List InfoElement
  pub varlen_ies : List PlacementInfo
  pub buf : Option (List ℕ)
  pub size : ℕ
  pub fixlen_data_record_size : ℕ
  pub template_id : ℕ

-- The constructor.
abbrev pub empty : PlacementTemplate
empty = record {
  placements = [];
  ies = [];
  varlen_ies = [];
  buf = none;
  size = 0;
  fixlen_data_record_size = 0;
  template_id = 0;
}

-- `placements[ie] = info` on the ordered map.
unfoldable pub assign :
    InfoElement
    → PlacementInfo
    → List (InfoElement × PlacementInfo)
    → List (InfoElement × PlacementInfo)
assign ie info [] = (ie, info) ∷ []
assign ie info ((k, v) ∷ m) =
    if ie.address == k.address
    then (k, info) ∷ m
    else if ltb ie.address k.address
    then (ie, info) ∷ (k, v) ∷ m
    else (k, v) ∷ assign ie info m

-- The size that is used: 0 stands for the length of the element.
abbrev pub effective_size : InfoElement → ℕ → ℕ
effective_size ie size = if size == 0 then ie.len else size

-- PlacementTemplate::register_placement, which always returns true.
unfoldable pub register_placement : PlacementTemplate → InfoElement → ℕ → ℕ → PlacementTemplate
register_placement t ie p size =
    let used = effective_size ie size in
    let info : PlacementInfo = record { ie = ie; address = p; size_on_wire = used } in
    record t {
      placements = assign ie info t.placements;
      ies = t.ies ++ (ie ∷ []);
      varlen_ies = if used == ipfix_varlen then t.varlen_ies ++ (info ∷ []) else t.varlen_ies;
      fixlen_data_record_size =
          if used == ipfix_varlen
          then t.fixlen_data_record_size
          else t.fixlen_data_record_size + used;
    }

-- PlacementTemplate::lookup_placement: the location and the size on the wire.
unfoldable pub lookup_placement : List (InfoElement × PlacementInfo) → InfoElement → Option (ℕ × ℕ)
lookup_placement [] ie = none
lookup_placement ((k, info) ∷ m) ie =
    if matches k ie then some (info.address, info.size_on_wire) else lookup_placement m ie

-- The first loop of PlacementTemplate::is_match: is every placed element in the wire template?
unfoldable pub all_found : List (InfoElement × PlacementInfo) → List InfoElement → Bool
all_found [] wire = true
all_found ((k, info) ∷ m) wire = contains wire k && all_found m wire

-- Its inner loop: does some placed element match this one?
unfoldable pub is_placed : List (InfoElement × PlacementInfo) → InfoElement → Bool
is_placed [] ie = false
is_placed ((k, info) ∷ m) ie = if matches k ie then true else is_placed m ie

-- PlacementTemplate::is_match: the number of placements, or 0 if one is not in the wire template.
unfoldable pub is_match : PlacementTemplate → List InfoElement → ℕ
is_match t wire = if all_found t.placements wire then length t.placements else 0

-- The insertion into a std::set of pointers.
unfoldable pub insert_ie : InfoElement → List InfoElement → List InfoElement
insert_ie ie [] = ie ∷ []
insert_ie ie (x ∷ xs) = if x.address == ie.address then x ∷ xs else x ∷ insert_ie ie xs

-- The set of elements that it reports as unmatched.
unfoldable pub unmatched : PlacementTemplate → List InfoElement → List InfoElement
unmatched t [] = []
unmatched t (ie ∷ wire) =
    let rest = unmatched t wire in if is_placed t.placements ie then rest else insert_ie ie rest
