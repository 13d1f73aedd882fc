-- ===== src/Handler/Total.antt =====
-- process_template_set comes to an end.
use libfc.Prelude.{
  ℕ, zero, suc, ◌≡◌, ◌≢◌, ◌≤◌, ◌<◌, refl, arith, Bool, true, false, List, [], ◌∷◌, some, none,
  length, ok, exhausted, Option-cases, Outcome, undefined, thrown, aborted, inl, inr,
}
use libfc.Errors.{Reply, Call, ◌>=>◌}
use libfc.Handler.State.{Handler, is_idle}
use libfc.Info.Model.{add, add_unknown}
use libfc.Handler.Templates.{
  FieldSpec, decode_enterprise, decode_field, field_element, field_specifier, add_field,
  handle_field, options_field_specifier, drop_reply, next_field, process_fields,
  decode_record_header, start_template_record, end_template_record, end_template_record_at,
  close_template, next_record, process_records, process_template_set,
}

-- The call comes to an end, and no step of it is undefined.
abbrev pub Runs {ℓ} : {A : Type ℓ} → Outcome A → Type ℓ
Runs m = (m ≢ exhausted) × (m ≢ undefined)

decode_enterprise-lt :
    (id len : ℕ) (cur rest : List ℕ) (f : FieldSpec)
    → decode_enterprise id len cur ≡ some (f, rest)
    → length rest < length cur
unfolding decode_enterprise
decode_enterprise-lt id len (b0 ∷ b1 ∷ b2 ∷ b3 ∷ cur) rest f h = ground arith
decode_enterprise-lt id len _ rest f h = ground arith

decode_field-lt :
    (cur rest : List ℕ) (f : FieldSpec)
    → decode_field cur ≡ some (f, rest)
    → length rest < length cur
unfolding decode_field
decode_field-lt (b0 ∷ b1 ∷ b2 ∷ b3 ∷ cur) rest f h = grind (arith, decode_enterprise-lt)
decode_field-lt _ rest f h = ground arith

decode_record_header-lt :
    (o : Bool) (cur rest : List ℕ) (id count : ℕ)
    → decode_record_header o cur ≡ some (id, count, rest)
    → length rest < length cur
unfolding decode_record_header
decode_record_header-lt false (b0 ∷ b1 ∷ b2 ∷ b3 ∷ cur) rest id count h = ground arith
decode_record_header-lt true (b0 ∷ b1 ∷ b2 ∷ b3 ∷ b4 ∷ b5 ∷ cur) rest id count h = ground arith
decode_record_header-lt _ _ rest id count h = ground arith

handle_field-Runs :
    (o : Bool) (f : FieldSpec) (h : Handler) → is_idle h ≡ false → Runs (handle_field o f h)
unfolding handle_field options_field_specifier drop_reply field_specifier field_element add_field
    add_unknown add
handle_field-Runs o f h i = (ground (arith), ground (arith))

handle_field_busy :
    (o : Bool) (f : FieldSpec) (h : Handler) (r : Reply) (h' : Handler)
    → is_idle h ≡ false
    → handle_field o f h ≡ ok (r, h')
    → is_idle h' ≡ false
unfolding handle_field options_field_specifier drop_reply field_specifier field_element add_field
    add_unknown add
handle_field_busy o f h r h' i e = ground (arith)

next_field-Runs :
    (c : Call Handler) (cur : List ℕ) (f : Handler → Call (Handler × List ℕ))
    → Runs c
    → ((h : Handler) → c ≡ ok (none, h) → Runs (f h))
    → Runs (next_field c cur f)
next_field-Runs (ok (none, h)) cur f v k = k h refl
next_field-Runs (ok (some e, h)) cur f v k = (ground arith, ground arith)
next_field-Runs thrown cur f v k = (ground arith, ground arith)
next_field-Runs aborted cur f v k = (ground arith, ground arith)
next_field-Runs undefined cur f v k = absurd (v.1 refl)
next_field-Runs exhausted cur f v k = absurd (v.0 refl)

next_record-Runs :
    (c : Call (Handler × List ℕ)) (f : Handler → List ℕ → Call Handler)
    → Runs c
    → ((h : Handler) (cur : List ℕ) → c ≡ ok (none, (h, cur)) → Runs (f h cur))
    → Runs (next_record c f)
next_record-Runs (ok (none, (h, cur))) f v k = k h cur refl
next_record-Runs (ok (some e, (h, cur))) f v k = (ground arith, ground arith)
next_record-Runs thrown f v k = (ground arith, ground arith)
next_record-Runs aborted f v k = (ground arith, ground arith)
next_record-Runs undefined f v k = absurd (v.1 refl)
next_record-Runs exhausted f v k = absurd (v.0 refl)

>=>-Runs {ℓ} :
    {S : Type ℓ} (c : Call S) (f : S → Call S)
    → Runs c
    → ((s : S) → c ≡ ok (none, s) → Runs (f s))
    → Runs (c >=> f)
>=>-Runs (ok (none, s)) f v k = k s refl
>=>-Runs (ok (some e, s)) f v k = (λ e. cc, λ e. cc)
>=>-Runs thrown f v k = (λ e. cc, λ e. cc)
>=>-Runs aborted f v k = (λ e. cc, λ e. cc)
>=>-Runs undefined f v k = absurd (v.1 refl)
>=>-Runs exhausted f v k = absurd (v.0 refl)

process_fields-Runs :
    (n : ℕ) (o : Bool) (cur : List ℕ) (h : Handler)
    → is_idle h ≡ false
    → Runs (process_fields n o cur h)
unfolding process_fields
process_fields-Runs zero o cur h i = (ground (arith), ground (arith))
process_fields-Runs (suc n) o cur h i = elim (Option-cases (decode_field cur)) [
  | inl e ↦ rw (e, process_fields) (ground (arith), ground (arith))
  | inr ((f, rest), e) ↦
      rw (e, process_fields)
        (next_field-Runs (handle_field o f h) cur (λ h'. process_fields n o rest h')
          (handle_field-Runs o f h i)
          (λ h' e'. process_fields-Runs n o rest h' (handle_field_busy o f h none h' i e')))
]

process_fields-le :
    (n : ℕ) (o : Bool) (cur : List ℕ) (h : Handler) (h' : Handler) (cur' : List ℕ)
    → process_fields n o cur h ≡ ok (none, (h', cur'))
    → length cur' ≤ length cur
unfolding process_fields
process_fields-le zero o cur h h' cur' e = ground (arith)
process_fields-le (suc n) o cur h h' cur' e = elim (Option-cases (decode_field cur)) [
  | inl e1 ↦ ground (arith)
  | inr ((f, rest), e1) ↦ grind (arith, process_fields-le n o rest, decode_field-lt cur rest f e1)
]

start_template_record-Runs : (id count : ℕ) (h : Handler) → Runs (start_template_record id count h)
unfolding start_template_record
start_template_record-Runs id count h = (ground (arith), ground (arith))

start_template_record_busy :
    (id count : ℕ) (h h' : Handler)
    → start_template_record id count h ≡ ok (none, h')
    → is_idle h' ≡ false
unfolding start_template_record
start_template_record_busy id count h h' e = ground (arith)

end_template_record-Runs : (h : Handler) → Runs (end_template_record h)
unfolding end_template_record end_template_record_at close_template
end_template_record-Runs h = (ground (arith), ground (arith))

decode_record_header_nil : (o : Bool) → decode_record_header o [] ≡ none
unfolding decode_record_header
decode_record_header_nil true = refl
decode_record_header_nil false = refl

process_records-Runs :
    (fuel : ℕ) (o : Bool) (cur : List ℕ) (h : Handler)
    → length cur ≤ fuel
    → Runs (process_records fuel o cur h)
unfolding process_records
process_records-Runs zero o [] h l =
    rw (decode_record_header_nil o, process_records) (ground (arith), ground (arith))
process_records-Runs zero o (x ∷ xs) h l = absurd (omega arith)
process_records-Runs (suc fuel) o cur h l = elim (Option-cases (decode_record_header o cur)) [
  | inl e ↦ rw (e, process_records) (ground (arith), ground (arith))
  | inr ((id, count, rest), e) ↦
      rw (e, process_records)
        (>=>-Runs (start_template_record id count h) _ (start_template_record-Runs id count h)
          λ h1 e1.
            next_record-Runs (process_fields count o rest h1) _
              (process_fields-Runs count o rest h1 (start_template_record_busy id count h h1 e1))
              λ h2 cur' e2.
                >=>-Runs (end_template_record h2) _ (end_template_record-Runs h2) λ h3 e3.
                  process_records-Runs fuel o cur' h3 (
                    omega (
                      arith,
                      decode_record_header-lt o cur rest id count e,
                      process_fields-le count o rest h1 h2 cur' e2,
                    )))
]

-- process_template_set ends on every set, whatever its octets and the state of the handler: its two
-- loops do not run for ever, and no step dereferences a null template.
pub process_template_set-Runs :
    (is_options_set : Bool) (buf : List ℕ) (h : Handler)
    → Runs (process_template_set is_options_set buf h)
unfolding process_template_set
process_template_set-Runs o buf h = process_records-Runs (length buf) o buf h (omega arith)
