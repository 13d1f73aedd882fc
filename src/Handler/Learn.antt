-- ===== src/Handler/Learn.antt =====
-- Template sets that hold the wire forms of placement templates, as a handler that knows their
-- elements takes them.
use mathlib.Core.List.{append_assoc, append-nil}
use mathlib.Core.Path.{subst}
use libfc.Prelude.{
  ℕ, ◌^◌, ◌≡◌, ◌∙◌, sym, ◌≤◌, ◌<◌, refl, arith, false, List, [], ◌∷◌, ◌++◌, some, none, length, All,
  zero, suc, length-append,
}
use libfc.Wire.{encode16, decode_uint16-encode16}
use libfc.Errors.{return_ok}
use libfc.Info.Types.{InfoElement}
use libfc.Info.Template
use libfc.Info.Template.{IeTemplate}
use libfc.Info.Model.{InfoModel}
use libfc.Placement.Form.{all_octets, form, length-form}
use libfc.Handler.State.{Handler, find_wire_template}
use libfc.Handler.Templates.{
  start_template_record, keep_template, close_template, end_template_record, end_template_record_at,
  decode_record_header, process_records, process_template_set,
}
use libfc.Handler.Fields.{IsCodable, Knows, add_all, process_fields-all_octets}

-- A template's ID and its elements, within the widths of a template record and known to the handler.
pub record IsRecord (m : InfoModel) (r : ℕ × List InfoElement) : Type 0 where
  pub id_small : r.0 < 2 ^ 16
  pub count_small : length r.1 < 2 ^ 16
  pub codable : All IsCodable r.1
  pub known : All (Knows m) r.1

abbrev pub forms : List (ℕ × List InfoElement) → List ℕ
forms [] = []
forms ((id, ies) ∷ rs) = form id ies ++ forms rs

-- The handler before and after the end of a template record; a record without fields adds nothing.
abbrev pub assembled : ℕ → List InfoElement → Handler → Handler
assembled id ies h = record h {
  current_template_id = id;
  current_field_count = length ies;
  current_field_no = length ies;
  current_wire_template = some (add_all Template.empty ies);
}

abbrev pub learn : ℕ → List InfoElement → Handler → Handler
learn id [] h = record (assembled id [] h) { current_wire_template = none }
learn id (ie ∷ ies) h =
    record (keep_template (find_wire_template h id) (add_all Template.empty (ie ∷ ies))
      (assembled id (ie ∷ ies) h)) { current_wire_template = none }

abbrev pub learn_all : List (ℕ × List InfoElement) → Handler → Handler
learn_all [] h = h
learn_all ((id, ies) ∷ rs) h = learn_all rs (learn id ies h)

decode_record_header-form :
    (id : ℕ) (ies : List InfoElement) (rest : List ℕ)
    → id < 2 ^ 16
    → length ies < 2 ^ 16
    → decode_record_header false (form id ies ++ rest)
      ≡ some (id, length ies, all_octets ies ++ rest)
unfolding decode_record_header encode16
decode_record_header-form id ies rest s l =
    ground (arith, decode_uint16-encode16 id s, decode_uint16-encode16 (length ies) l)

pub ies-add_all : (t : IeTemplate) (ies : List InfoElement) → (add_all t ies).ies ≡ t.ies ++ ies
unfolding Template.add
ies-add_all t [] = sym (append-nil t.ies)
ies-add_all t (ie ∷ ies) =
    ground (arith, ies-add_all (Template.add t ie) ies, append_assoc t.ies (ie ∷ []) ies)

end_template_record-assembled :
    (id : ℕ) (ies : List InfoElement) (h : Handler)
    → end_template_record (assembled id ies h) ≡ return_ok (learn id ies h)
unfolding end_template_record end_template_record_at close_template keep_template find_wire_template
end_template_record-assembled id [] h = ground arith
end_template_record-assembled id (ie ∷ ies) h =
    ground (arith, ies-add_all Template.empty (ie ∷ ies))

-- One record is taken, and the handler goes on behind it.
process_records-form :
    (fuel id : ℕ) (ies : List InfoElement) (rest : List ℕ) (h : Handler)
    → IsRecord h.info_model (id, ies)
    → h.current_wire_template ≡ none
    → process_records (suc fuel) false (form id ies ++ rest) h
      ≡ process_records fuel false rest (learn id ies h)
unfolding process_records start_template_record
process_records-form fuel id ies rest h v i =
    let started : Handler = record h {
      current_template_id = id;
      current_field_count = length ies;
      current_field_no = 0;
      current_wire_template = some Template.empty;
    } in
    let fields =
      process_fields-all_octets ies rest Template.empty started v.codable v.known refl (omega arith)
        v.count_small in
    ground (
      arith,
      decode_record_header-form id ies rest v.id_small v.count_small,
      fields,
      end_template_record-assembled id ies h,
      i,
    )

-- Learning a template changes neither the information model nor the domain.
pub learn_frame :
    (id : ℕ) (ies : List InfoElement) (h : Handler)
    → ((learn id ies h).info_model ≡ h.info_model)
      × ((learn id ies h).observation_domain ≡ h.observation_domain)
unfolding keep_template
learn_frame id [] h = (refl, refl)
learn_frame id (ie ∷ ies) h = (ground (arith), ground (arith))

learn_closed :
    (id : ℕ) (ies : List InfoElement) (h : Handler) → (learn id ies h).current_wire_template ≡ none
learn_closed id [] h = refl
learn_closed id (ie ∷ ies) h = refl

process_records-forms :
    (rs : List (ℕ × List InfoElement)) (fuel : ℕ) (h : Handler)
    → All (IsRecord h.info_model) rs
    → h.current_wire_template ≡ none
    → length rs ≤ fuel
    → process_records fuel false (forms rs) h ≡ return_ok (learn_all rs h)
unfolding process_records decode_record_header
process_records-forms [] zero h v i l = refl
process_records-forms [] (suc fuel) h v i l = refl
process_records-forms ((id, ies) ∷ rs) zero h v i l = absurd (omega arith)
process_records-forms ((id, ies) ∷ rs) (suc fuel) h v i l =
    let known : All (IsRecord (learn id ies h).info_model) rs =
      subst (λ m. All (IsRecord m) rs) (sym (learn_frame id ies h).0) v.1 in
    process_records-form fuel id ies (forms rs) h v.0 i
    ∙ process_records-forms rs fuel (learn id ies h) known (learn_closed id ies h) (omega arith)

length-forms : (rs : List (ℕ × List InfoElement)) → length rs ≤ length (forms rs)
length-forms [] = omega arith
length-forms ((id, ies) ∷ rs) =
    omega (arith, length-forms rs, length-append (form id ies) (forms rs), length-form id ies)

-- A template set that holds the wire forms of templates whose elements the handler knows is taken
-- whole: process_template_set replies with success, and the handler has learned each of the
-- templates, in order.
pub process_template_set-forms :
    (rs : List (ℕ × List InfoElement)) (h : Handler)
    → All (IsRecord h.info_model) rs
    → h.current_wire_template ≡ none
    → process_template_set false (forms rs) h ≡ return_ok (learn_all rs h)
unfolding process_template_set
process_template_set-forms rs h v i =
    process_records-forms rs (length (forms rs)) h v i (length-forms rs)
