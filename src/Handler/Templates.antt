-- ===== src/Handler/Templates.antt =====
-- lib/PlacementContentHandler.cpp: template sets. A list is what stands from a pointer to the end of
-- the set.
use libfc.Prelude.{
  ℕ, zero, suc, ◌+◌, ◌%◌, ◌^◌, Bool, true, false, List, [], ◌∷◌, Option, none, some, ltb, leb, ◌==◌,
  ◌||◌, not, if◌then◌else◌, length, Outcome, ok, thrown, aborted, undefined, exhausted, assert,
  ◌>>=◌, ◌>>◌,
}
use libfc.Wire.{decode_uint16, decode_uint32}
use libfc.Errors.{Call, return_ok, return_error, recoverable, format_error, long_fieldspec, ◌>=>◌}
use libfc.Info.Types.{InfoElement}
use libfc.Info.Template
use libfc.Info.Template.{IeTemplate}
use libfc.Info.Model.{InfoModel, lookup_ie, add_unknown}
use libfc.Handler.State.{
  Handler, is_idle, report_error, find_wire_template, make_template_key, set_key,
}

-- PlacementContentHandler::start_template_record.
unfoldable pub start_template_record : ℕ → ℕ → Handler → Call Handler
start_template_record template_id field_count h = do
  assert (is_idle h)
  return_ok (record h {
    current_template_id = template_id;
    current_field_count = field_count;
    current_field_no = 0;
    current_wire_template = some Template.empty;
  })

-- A set without one of its members.
unfoldable pub remove : ℕ → List ℕ → List ℕ
remove k [] = []
remove k (x ∷ xs) = let rest = remove k xs in if x == k then rest else x ∷ rest

-- The templates after a template `t` that is not empty, by what find_wire_template found. The
-- source removes the template ID, where the set holds template keys.
unfoldable pub keep_template : Option IeTemplate → IeTemplate → Handler → Handler
keep_template none t h = record h {
  wire_templates =
      set_key h.wire_templates (make_template_key h.observation_domain h.current_template_id) t;
}
keep_template (some mine) t h = if Template.same mine.ies t.ies then h else record h {
  incomplete_template_ids = remove h.current_template_id h.incomplete_template_ids;
  wire_templates =
      set_key h.wire_templates (make_template_key h.observation_domain h.current_template_id) t;
}

-- The end of PlacementContentHandler::end_template_record: the check of the field count.
unfoldable pub close_template : Handler → Call Handler
close_template h =
    if h.current_field_count == h.current_field_no
    then return_ok (record h { current_wire_template = none })
    else report_error format_error h

-- PlacementContentHandler::end_template_record, by the template that has been assembled.
unfoldable pub end_template_record_at : Option IeTemplate → Handler → Call Handler
unfolding close_template
end_template_record_at none h = aborted
end_template_record_at (some t) h = close_template (
    if ltb 0 (length t.ies)
    then keep_template (find_wire_template h h.current_template_id) t h
    else h)

unfoldable pub end_template_record : Handler → Call Handler
end_template_record h = end_template_record_at h.current_wire_template h

-- `current_wire_template->add (ie)` and the count of the fields.
unfoldable pub add_field : Option IeTemplate → InfoElement → InfoModel → Handler → Call Handler
add_field none ie m h = undefined
add_field (some t) ie m h = return_ok (record h {
  info_model = m;
  current_wire_template = some (Template.add t ie);
  current_field_no = (h.current_field_no + 1) % 2 ^ 16;
})

-- The element of a field: known, or entered into the information model.
unfoldable pub field_element : InfoModel → ℕ → ℕ → ℕ → Outcome (InfoElement × InfoModel)
field_element m pen ie_id ie_length = elim (lookup_ie m pen ie_id ie_length) [
  | some r ↦ ok r
  | none ↦ add_unknown m pen ie_id ie_length
]

-- PlacementContentHandler::field_specifier. The two assertions are that the enterprise bit is set
-- just when the enterprise number is not 0.
unfoldable pub field_specifier : Bool → ℕ → ℕ → ℕ → Handler → Call Handler
field_specifier enterprise ie_id ie_length pen h =
    if leb h.current_field_count h.current_field_no then report_error format_error h else (do
      assert (enterprise || (pen == 0))
      assert (not enterprise || not (pen == 0))
      (ie, m) ← field_element h.info_model pen ie_id ie_length
      add_field h.current_wire_template ie m h)

-- scope_field_specifier and options_field_specifier drop the reply of field_specifier.
unfoldable pub drop_reply : Call Handler → Call Handler
drop_reply c = do (r, h) ← c; return_ok h

unfoldable pub options_field_specifier : Bool → ℕ → ℕ → ℕ → Handler → Call Handler
options_field_specifier enterprise ie_id ie_length pen h =
    drop_reply (field_specifier enterprise ie_id ie_length pen h)

-- A field specifier as it stands in a template record.
pub record FieldSpec : Type 0 where
  pub enterprise : Bool
  pub ie_id : ℕ
  pub ie_length : ℕ
  pub pen : ℕ

-- The specifier at the start of a list, and what follows it; `none` if it is cut off.
unfoldable pub decode_enterprise : ℕ → ℕ → List ℕ → Option (FieldSpec × List ℕ)
decode_enterprise id len (b0 ∷ b1 ∷ b2 ∷ b3 ∷ rest) = some (
  record { enterprise = true; ie_id = id; ie_length = len; pen = decode_uint32 b0 b1 b2 b3 },
  rest,
)
decode_enterprise id len _ = none

unfoldable pub decode_field : List ℕ → Option (FieldSpec × List ℕ)
decode_field (b0 ∷ b1 ∷ b2 ∷ b3 ∷ rest) =
    let id = decode_uint16 b0 b1 in
    let len = decode_uint16 b2 b3 in
    if leb (2 ^ 15) id
    then decode_enterprise (id % 2 ^ 15) len rest
    else some (record { enterprise = false; ie_id = id; ie_length = len; pen = 0 }, rest)
decode_field _ = none

-- The call for one field.
unfoldable pub handle_field : Bool → FieldSpec → Handler → Call Handler
handle_field is_options_set f h =
    if is_options_set
    then options_field_specifier f.enterprise f.ie_id f.ie_length f.pen h
    else field_specifier f.enterprise f.ie_id f.ie_length f.pen h

-- The rest of a round of the inner loop, after the call for its field.
abbrev pub next_field :
    Call Handler → List ℕ → (Handler → Call (Handler × List ℕ)) → Call (Handler × List ℕ)
next_field (ok (none, h)) cur f = f h
next_field (ok (some e, h)) cur f = ok (some e, (h, cur))
next_field thrown cur f = thrown
next_field aborted cur f = aborted
next_field undefined cur f = undefined
next_field exhausted cur f = exhausted

-- The inner loop of PlacementContentHandler::process_template_set, over the fields that are left.
-- The state is the handler and what follows.
unfoldable pub process_fields : ℕ → Bool → List ℕ → Handler → Call (Handler × List ℕ)
process_fields zero is_options_set cur h = return_ok (h, cur)
process_fields (suc n) is_options_set cur h = elim (decode_field cur) [
  | none ↦ return_error recoverable long_fieldspec (h, cur)
  | some (f, rest) ↦
      next_field (handle_field is_options_set f h) cur
        (λ h'. process_fields n is_options_set rest h')
]

-- The header of a template record: the ID, the field count, and what follows.
unfoldable pub decode_record_header : Bool → List ℕ → Option (ℕ × ℕ × List ℕ)
decode_record_header false (b0 ∷ b1 ∷ b2 ∷ b3 ∷ rest) =
    some (decode_uint16 b0 b1, decode_uint16 b2 b3, rest)
decode_record_header true (b0 ∷ b1 ∷ b2 ∷ b3 ∷ b4 ∷ b5 ∷ rest) =
    some (decode_uint16 b0 b1, decode_uint16 b2 b3, rest)
decode_record_header is_options_set cur = none

-- The rest of a round of the outer loop, after its fields.
abbrev pub next_record : Call (Handler × List ℕ) → (Handler → List ℕ → Call Handler) → Call Handler
next_record (ok (none, (h, cur))) f = f h cur
next_record (ok (some e, (h, cur))) f = ok (some e, h)
next_record thrown f = thrown
next_record aborted f = aborted
next_record undefined f = undefined
next_record exhausted f = exhausted

-- PlacementContentHandler::process_template_set, on fuel. Each round reads a header, so the length of
-- the set is enough.
unfoldable pub process_records : ℕ → Bool → List ℕ → Handler → Call Handler
process_records zero is_options_set cur h = elim (decode_record_header is_options_set cur) [
  | none ↦ return_ok h
  | some (id, field_count, rest) ↦ exhausted
]
process_records (suc fuel) is_options_set cur h = elim (decode_record_header is_options_set cur) [
  | none ↦ return_ok h
  | some (id, field_count, rest) ↦ start_template_record id field_count h >=> λ h1.
      next_record (process_fields field_count is_options_set rest h1)
        λ h2 cur'. end_template_record h2 >=> λ h3. process_records fuel is_options_set cur' h3
]

unfoldable pub process_template_set : Bool → List ℕ → Handler → Call Handler
unfolding process_records
process_template_set is_options_set buf h = process_records (length buf) is_options_set buf h

-- PlacementContentHandler::start_template_set and start_options_template_set, which drop the reply of
-- process_template_set.
unfoldable pub start_template_set : List ℕ → Handler → Call Handler
start_template_set buf h = do assert (is_idle h); drop_reply (process_template_set false buf h)

unfoldable pub start_options_template_set : List ℕ → Handler → Call Handler
start_options_template_set buf h = do
  assert (is_idle h)
  drop_reply (process_template_set true buf h)
