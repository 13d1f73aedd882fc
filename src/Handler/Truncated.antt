-- ===== src/Handler/Truncated.antt =====
-- A template set that ends inside a template record.
use libfc.Prelude.{
  ℕ, zero, suc, ◌≡◌, ◌<◌, ◌^◌, refl, arith, List, [], ◌∷◌, ◌++◌, some, none, length, aborted,
}
use libfc.Wire.{encode16, decode_uint16-encode16}
use libfc.Errors.{return_ok}
use libfc.Info.Template
use libfc.Handler.State.{Handler, MessageHeader, start_message, end_message}
use libfc.Handler.Templates.{
  decode_field, process_fields, decode_record_header, start_template_record, process_records,
  process_template_set, start_template_set, drop_reply,
}

decode_field_short : (cur : List ℕ) → length cur < 4 → decode_field cur ≡ none
unfolding decode_field
decode_field_short [] h = refl
decode_field_short (a ∷ []) h = refl
decode_field_short (a ∷ b ∷ []) h = refl
decode_field_short (a ∷ b ∷ c ∷ []) h = refl
decode_field_short (a ∷ b ∷ c ∷ d ∷ cur) h = absurd (omega arith)

-- A template set that announces fields and ends before the first of them: start_template_set replies
-- with success all the same, since it drops the reply of process_template_set, and leaves the half
-- read template behind; the assertions of end_message and of the next start_message then fail.
pub start_template_set_truncated :
    (id count : ℕ) (rest : List ℕ) (header : MessageHeader) (h : Handler)
    → id < 2 ^ 16
    → 0 < count
    → count < 2 ^ 16
    → length rest < 4
    → h.current_wire_template ≡ none
    → (h' : Handler) × (start_template_set (encode16 id ++ encode16 count ++ rest) h ≡ return_ok h')
      × (end_message h' ≡ aborted)
      × (start_message header h' ≡ aborted)
unfolding start_template_set process_template_set process_records start_template_record
    process_fields decode_record_header encode16 drop_reply end_message start_message
start_template_set_truncated id zero rest header h a b c l i = absurd (omega arith)
start_template_set_truncated id (suc n) rest header h a b c l i = (
  record h {
    current_template_id = id;
    current_field_count = suc n;
    current_field_no = 0;
    current_wire_template = some Template.empty;
  },
  ground (
    arith,
    decode_field_short rest l,
    decode_uint16-encode16 id a,
    decode_uint16-encode16 (suc n) c,
    i,
  ),
  refl,
  refl,
)
