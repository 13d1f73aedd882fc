-- ===== src/Handler/Lookup.antt =====
-- find_wire_template after a template was learned, and template keys.
use mathlib.Core.Path.{subst}
use mathlib.Core.List.{append-nil}
use libfc.Prelude.{
  ℕ, ◌^◌, ◌≡◌, ◌≢◌, ◌<◌, refl, arith, true, false, List, [], ◌∷◌, some, none, ◌==◌, if◌then◌else◌,
  length, All, ok, Option, Option-cases, inl, inr, Bool-cases, sym, ◌∙◌,
}
use libfc.Errors.{return_ok}
use libfc.Info.Types.{InfoElement}
use libfc.Info.Template
use libfc.Info.Template.{IeTemplate, same_refl}
use libfc.Placement.Template.{PlacementTemplate}
use libfc.Placement.Wire.{wire_template}
use libfc.Placement.Form.{IsPlain, form, wire_template-IsPlain}
use libfc.Handler.State.{Handler, find_key, set_key, find_wire_template, make_template_key}
use libfc.Handler.Templates.{keep_template, process_template_set}
use libfc.Handler.Fields.{add_all}
use libfc.Handler.Learn.{
  IsRecord, learn, learn_all, forms, ies-add_all, process_template_set-forms, learn_frame,
}

-- Template keys are equal only for the same domain and the same template ID.
pub make_template_key_injective :
    (d e i j : ℕ)
    → d < 2 ^ 32
    → e < 2 ^ 32
    → i < 2 ^ 16
    → j < 2 ^ 16
    → make_template_key d i ≡ make_template_key e j
    → (d ≡ e) × (i ≡ j)
unfolding make_template_key
make_template_key_injective d e i j a b s t h = (omega arith, omega arith)

find_key-set_key :
    (m : List (ℕ × IeTemplate)) (k : ℕ) (t : IeTemplate) → find_key (set_key m k t) k ≡ some t
unfolding find_key set_key
find_key-set_key [] k t = ground arith
find_key-set_key ((j, u) ∷ m) k t = ground (arith, find_key-set_key m k t)

find_key-set_key_other :
    (m : List (ℕ × IeTemplate)) (j k : ℕ) (t : IeTemplate)
    → j ≢ k
    → find_key (set_key m k t) j ≡ find_key m j
unfolding find_key set_key
find_key-set_key_other [] j k t n = ground arith
find_key-set_key_other ((i, u) ∷ m) j k t n = ground (arith, find_key-set_key_other m j k t n)

-- The template that is found for an ID after it was learned lists the elements that it was learned with.
find_wire_template-learn :
    (id : ℕ) (ie : InfoElement) (rest : List InfoElement) (h : Handler)
    → (t : IeTemplate) × (find_wire_template (learn id (ie ∷ rest) h) id ≡ some t)
      × (Template.same t.ies (ie ∷ rest) ≡ true)
unfolding find_wire_template keep_template
find_wire_template-learn id ie rest h =
    let ies = ie ∷ rest in
    let t = add_all Template.empty ies in
    let key = make_template_key h.observation_domain id in
    let all : t.ies ≡ ies = ies-add_all Template.empty ies in
    let met : Template.same t.ies ies ≡ true = ground (arith, all, same_refl ies) in
    elim (Option-cases (find_wire_template h id)) [
      | inl e ↦ (t, ground (arith, find_key-set_key h.wire_templates key t), met)
      | inr (mine, e) ↦ elim (Bool-cases (Template.same mine.ies t.ies)) [
        | inl f ↦ (mine, ground (arith), ground (arith, all))
        | inr f ↦ (t, ground (arith, find_key-set_key h.wire_templates key t), met)
      ]
    ]

find_wire_template-learn_filled :
    (id : ℕ) (ies : List InfoElement) (h : Handler)
    → ies ≢ []
    → (t : IeTemplate) × (find_wire_template (learn id ies h) id ≡ some t)
      × (Template.same t.ies ies ≡ true)
find_wire_template-learn_filled id [] h n = absurd (n refl)
find_wire_template-learn_filled id (ie ∷ ies) h n = find_wire_template-learn id ie ies h

-- A record without fields leaves the templates as they are.
find_wire_template-learn_empty :
    (id i : ℕ) (h : Handler) → find_wire_template (learn i [] h) id ≡ find_wire_template h id
unfolding find_wire_template
find_wire_template-learn_empty id i h = refl

find_wire_template-learn_other :
    (id i : ℕ) (ies : List InfoElement) (h : Handler)
    → h.observation_domain < 2 ^ 32
    → id < 2 ^ 16
    → i < 2 ^ 16
    → id ≢ i
    → find_wire_template (learn i ies h) id ≡ find_wire_template h id
unfolding find_wire_template keep_template
find_wire_template-learn_other id i [] h d a b n = find_wire_template-learn_empty id i h
find_wire_template-learn_other id i (ie ∷ rest) h d a b n =
    let ies = ie ∷ rest in
    let key = make_template_key h.observation_domain id in
    let key' = make_template_key h.observation_domain i in
    let apart : key ≢ key' = λ e.
      n (make_template_key_injective h.observation_domain h.observation_domain id i d d a b e).1 in
    let kept =
      find_key-set_key_other h.wire_templates key key' (add_all Template.empty ies) apart in
    ground (arith, kept)

abbrev pub not_empty : List InfoElement → Option (List InfoElement)
not_empty [] = none
not_empty (ie ∷ ies) = some (ie ∷ ies)

-- The elements of the last record for an ID that has fields.
abbrev pub latest : List (ℕ × List InfoElement) → ℕ → Option (List InfoElement)
latest [] id = none
latest ((i, ies) ∷ rs) id = elim (latest rs id) [
  | some x ↦ some x
  | none ↦ if i == id then not_empty ies else none
]

-- What is found for an ID whose last record is given: the elements of that record or, if it has none,
-- what was found before.
abbrev pub Agrees : Option (List InfoElement) → Option IeTemplate → Option IeTemplate → Type 0
Agrees none before after = after ≡ before
Agrees (some ies) before after =
    (t : IeTemplate) × (after ≡ some t) × (Template.same t.ies ies ≡ true)

Agrees-step :
    (o : Option (List InfoElement)) (i id : ℕ) (ies : List InfoElement) (h : Handler)
    (after : Option IeTemplate)
    → h.observation_domain < 2 ^ 32
    → id < 2 ^ 16
    → i < 2 ^ 16
    → Agrees o (find_wire_template (learn i ies h) id) after
    → Agrees
        (elim o [ some x ↦ some x | none ↦ if i == id then not_empty ies else none ])
        (find_wire_template h id)
        after
Agrees-step (some x) i id ies h after d a b v = v
Agrees-step none i id [] h after d a b v = elim (Bool-cases (i == id)) [
  | inl e ↦ rw e (v ∙ find_wire_template-learn_empty id i h)
  | inr e ↦ rw e (v ∙ find_wire_template-learn_empty id i h)
]
Agrees-step none i id (ie ∷ ies) h after d a b v = elim (Bool-cases (i == id)) [
  | inl e ↦
      let same : i ≡ id = ground arith in
      let (t, f, g) = find_wire_template-learn i ie ies h in rw e (t, ground (arith), g)
  | inr e ↦
      let apart : id ≢ i = ground arith in
      rw e (ground (arith, find_wire_template-learn_other id i (ie ∷ ies) h d a b apart))
]

learn_all-Agrees :
    (rs : List (ℕ × List InfoElement)) (id : ℕ) (h : Handler)
    → All (IsRecord h.info_model) rs
    → h.observation_domain < 2 ^ 32
    → id < 2 ^ 16
    → Agrees (latest rs id) (find_wire_template h id) (find_wire_template (learn_all rs h) id)
learn_all-Agrees [] id h v d a = refl
learn_all-Agrees ((i, ies) ∷ rs) id h v d a =
    let known : All (IsRecord (learn i ies h).info_model) rs =
      subst (λ m. All (IsRecord m) rs) (sym (learn_frame i ies h).0) v.1 in
    let ih =
      learn_all-Agrees rs id (learn i ies h) known (omega (arith, (learn_frame i ies h).1, d)) a in
    Agrees-step (latest rs id) i id ies h (find_wire_template (learn_all rs (learn i ies h)) id) d a
      v.0.id_small ih

-- For a template set that is a sequence of template records, with any number of fields, whose
-- elements have numbers that fit their fields and are known to the handler, in a handler that
-- assembles no template, process_template_set replies with success, and the template that is then
-- found for any ID lists the elements of the last record for that ID that has fields, and is the
-- one that was found before if there is no such record.
pub process_template_set_lem :
    (rs : List (ℕ × List InfoElement)) (id : ℕ) (h : Handler)
    → All (IsRecord h.info_model) rs
    → h.current_wire_template ≡ none
    → h.observation_domain < 2 ^ 32
    → id < 2 ^ 16
    → (h' : Handler) × (process_template_set false (forms rs) h ≡ return_ok h')
      × Agrees (latest rs id) (find_wire_template h id) (find_wire_template h' id)
process_template_set_lem rs id h v i d a =
    (learn_all rs h, process_template_set-forms rs h v i, learn_all-Agrees rs id h v d a)

-- For a placement template whose wire form is not yet computed, and whose elements, at least one,
-- were registered once each, have numbers below 2 ^ 15 and lengths and enterprise numbers that
-- fit their fields, and are known to a handler that assembles no template, and an ID other than
-- 0, wire_template succeeds, process_template_set takes its octets with success, and the wire
-- template that is then found under the ID lists the same elements in the same order.
pub wire_template-process_template_set :
    (t : PlacementTemplate) (id : ℕ) (h : Handler)
    → IsPlain t
    → id ≢ 0
    → IsRecord h.info_model (id, t.ies)
    → t.ies ≢ []
    → h.current_wire_template ≡ none
    → (t' : PlacementTemplate) × (bytes : List ℕ) × (h' : Handler) × (w : IeTemplate)
      × (wire_template t id ≡ ok t')
      × (t'.buf ≡ some bytes)
      × (process_template_set false bytes h ≡ return_ok h')
      × (find_wire_template h' id ≡ some w)
      × (Template.same w.ies t.ies ≡ true)
wire_template-process_template_set t id h v n r filled i =
    let taken = process_template_set-forms ((id, t.ies) ∷ []) h (r, tt) i in
    let (w, e, f) = find_wire_template-learn_filled id t.ies h filled in
    (
      record t { buf = some (form id t.ies); size = length (form id t.ies); template_id = id },
      form id t.ies,
      learn id t.ies h,
      w,
      wire_template-IsPlain t id v n,
      refl,
      ground (arith, taken, append-nil (form id t.ies)),
      e,
      f,
    )
