-- ===== src/Info/Ends.antt =====
-- InfoModel::parseIESpec comes to an end: no part is given back, so the loop's fuel is enough.
use libfc.Prelude.{
  ℕ, zero, suc, ◌≡◌, ◌≤◌, ◌⊎◌, refl, arith, Bool, true, false, not, ◌&&◌, ◌||◌, List, [], ◌∷◌,
  length, span, Outcome, ok, thrown, ◌>>◌, throw_if, ltb, ◌==◌, if◌then◌else◌, Bool-cases,
  Option-cases, inl, inr,
}
use libfc.Info.Types.{InfoElement}
use libfc.Info.Decimal.{read_number}
use libfc.Info.Spec.{
  name_only, Spec, blank, parse_num_pen, length_of, bracketed_length, parse_length, parse_until,
  close_part, parse_number_part, parse_length_part, parse_type_part, parse_context_part,
  parse_name_part, parse_part, parse_parts, parse_ie_spec, opens, element_of, has_part,
}
use libfc.Info.Shorter.{
  Yields, yields, throws, Yields-cases, bind-Yields, Left, length-span, length-read_number,
  match_char-Yields,
}

parse_num_pen-Yields :
    (text : List ℕ) → Yields (λ (number, pen, rest). length rest ≤ length text) (parse_num_pen text)
unfolding parse_num_pen
parse_num_pen-Yields text = elim (Option-cases (read_number 32 text)) [
  | inl e ↦ rw (e, parse_num_pen) throws
  | inr ((first, []), e) ↦ rw (e, parse_num_pen) (yields (first, 0, []) (omega arith))
  | inr ((first, c ∷ rest), e) ↦
      let l = length-read_number 32 text (c ∷ rest) first e in
      elim (Bool-cases (c == b'/')) [
        | inr k ↦ rw (e, k, parse_num_pen) (yields (first, 0, c ∷ rest) l)
        | inl k ↦ elim (Option-cases (read_number 32 rest)) [
          | inl e2 ↦ rw (e, k, e2, parse_num_pen) throws
          | inr ((number, rest'), e2) ↦
              rw (e, k, e2, parse_num_pen)
                (yields (number, first, rest')
                  (omega (arith, l, length-read_number 32 rest rest' number e2)))
        ]
      ]
]

length_of-Yields : (text : List ℕ) → Yields (λ len. Unit {0}) (length_of text)
unfolding length_of
length_of-Yields text = elim (Option-cases (read_number 64 text)) [
  | inl e ↦ rw (e, length_of) throws
  | inr ((len, rest), e) ↦
      let refused = not (len == 65535) && ltb 65515 len in
      rw (e, length_of)
        (elim (Bool-cases refused) [ inl k ↦ rw k throws | inr k ↦ rw k (yields len tt) ])
]

bracketed_length-Yields : (text : List ℕ) → Yields (λ len. Unit {0}) (bracketed_length text)
unfolding bracketed_length
bracketed_length-Yields [] = throws
bracketed_length-Yields (c ∷ cs) = elim (Bool-cases (c == b'v')) [
  | inl e ↦ rw (e, bracketed_length) (yields 65535 tt)
  | inr e ↦ rw (e, bracketed_length) (length_of-Yields (c ∷ cs))
]

parse_length-Yields : (text : List ℕ) → Yields (Left (length text)) (parse_length text)
unfolding parse_length
parse_length-Yields text =
    bind-Yields (λ len. Unit {0}) (Left (length text)) _ _
      (bracketed_length-Yields (span (λ c. c == b']') text).0)
      (λ len p. yields _ (length-span (λ c. c == b']') text))

close_part-Yields :
    (closing n : ℕ) (inside rest : List ℕ)
    → length rest ≤ n
    → Yields (Left n) (close_part closing inside rest)
unfolding close_part
close_part-Yields closing n [] rest l = throws
close_part-Yields closing n (c ∷ cs) rest l =
    bind-Yields (λ rest'. length rest' ≤ length rest) (Left n) _ _ (match_char-Yields closing rest)
      (λ rest' l'. yields _ (omega arith))

parse_until-Yields :
    (closing : ℕ) (text : List ℕ) → Yields (Left (length text)) (parse_until closing text)
unfolding parse_until
parse_until-Yields closing text =
    close_part-Yields closing (length text) (span (λ c. c == closing) text).0
      (span (λ c. c == closing) text).1 (length-span (λ c. c == closing) text)

guard-Yields {ℓ} :
    {A : Type ℓ} (P : A → Type 0) (b : Bool) (m : Outcome A)
    → Yields P m
    → Yields P (throw_if b >> m)
guard-Yields P true m y = throws
guard-Yields P false m y = y

-- The assertion of parseIESpec_Initial.
abbrev IsSound : Spec → Type 0
IsSound s = (not s.pen_set || s.number_set) ≡ true

-- What is left is no longer than `n`, and the assertion still holds.
abbrev Kept : ℕ → Spec × List ℕ → Type 0
Kept n (s, rest) = (length rest ≤ n) × IsSound s

IsSound-number : (b : Bool) → (not b || true) ≡ true
IsSound-number true = refl
IsSound-number false = refl

parse_number_part-Yields :
    (s : Spec) (text : List ℕ) → IsSound s → Yields (Kept (length text)) (parse_number_part s text)
unfolding parse_number_part
parse_number_part-Yields s text v = rw v (
    guard-Yields (Kept (length text)) s.number_set _ (
      bind-Yields (λ (number, pen, rest). length rest ≤ length text) (Kept (length text)) _ _
        (parse_num_pen-Yields text)
        λ (number, pen, rest) l.
          bind-Yields (λ rest'. length rest' ≤ length rest) (Kept (length text)) _ _
            (match_char-Yields b')' rest)
            (λ rest' l'.
              yields
                (
                  record s {
                    number = number;
                    pen = pen;
                    number_set = true;
                    pen_set = not (pen == 0);
                  },
                  rest',
                )
                (omega arith, IsSound-number (not (pen == 0))))))

parse_length_part-Yields :
    (s : Spec) (text : List ℕ) → IsSound s → Yields (Kept (length text)) (parse_length_part s text)
unfolding parse_length_part
parse_length_part-Yields s text v = guard-Yields (Kept (length text)) s.len_set _ (
    bind-Yields (Left (length text)) (Kept (length text)) _ _ (parse_length-Yields text)
      λ (len, rest) l.
        bind-Yields (λ rest'. length rest' ≤ length rest) (Kept (length text)) _ _
          (match_char-Yields b']' rest)
          (λ rest' l'. yields (record s { len = len; len_set = true }, rest') (omega arith, v)))

parse_type_part-Yields :
    (s : Spec) (text : List ℕ) → IsSound s → Yields (Kept (length text)) (parse_type_part s text)
unfolding parse_type_part
parse_type_part-Yields s text v = guard-Yields (Kept (length text)) s.type_set _ (
    bind-Yields (Left (length text)) (Kept (length text)) _ _ (parse_until-Yields b'>' text)
      λ (inside, rest) l. yields (record s { type_text = inside; type_set = true }, rest) (l, v))

parse_context_part-Yields :
    (s : Spec) (text : List ℕ) → IsSound s → Yields (Kept (length text)) (parse_context_part s text)
unfolding parse_context_part
parse_context_part-Yields s text v = guard-Yields (Kept (length text)) s.ctx_set _ (
    bind-Yields (Left (length text)) (Kept (length text)) _ _ (parse_until-Yields b'}' text)
      λ (inside, rest) l. yields (record s { ctx_set = true }, rest) (l, v))

parse_name_part-Yields :
    (s : Spec) (c : ℕ) (text : List ℕ)
    → IsSound s
    → Yields (Kept (length text)) (parse_name_part s c text)
unfolding parse_name_part
parse_name_part-Yields s c text v =
    let (more, rest) = span opens text in
    guard-Yields (Kept (length text)) s.name_set _
      (yields (record s { name = c ∷ more; name_set = true }, rest) (length-span opens text, v))

if-Yields {ℓ} :
    {A : Type ℓ} (P : A → Type 0) (b : Bool) (m n : Outcome A)
    → Yields P m
    → Yields P n
    → Yields P (if b then m else n)
if-Yields P true m n x y = x
if-Yields P false m n x y = y

parse_part-Yields :
    (s : Spec) (c : ℕ) (text : List ℕ)
    → IsSound s
    → Yields (Kept (length text)) (parse_part s c text)
unfolding parse_part
parse_part-Yields s c text v =
    let p = Kept (length text) in
    if-Yields p _ _ _ (parse_number_part-Yields s text v) (
      if-Yields p _ _ _ (parse_length_part-Yields s text v) (
        if-Yields p _ _ _ (parse_type_part-Yields s text v) (
          if-Yields p _ _ _ (parse_context_part-Yields s text v)
            (parse_name_part-Yields s c text v))))

parse_parts-Yields :
    (fuel : ℕ) (s : Spec) (text : List ℕ)
    → IsSound s
    → length text ≤ fuel
    → Yields (λ s'. Unit {0}) (parse_parts fuel s text)
unfolding parse_parts
parse_parts-Yields fuel s [] v l = yields s tt
parse_parts-Yields zero s (c ∷ cs) v l = absurd (omega arith)
parse_parts-Yields (suc fuel) s (c ∷ cs) v l =
    bind-Yields (Kept (length cs)) (λ s'. Unit {0}) _ _ (parse_part-Yields s c cs v)
      (λ (s', rest) k. parse_parts-Yields fuel s' rest k.1 (omega (arith, k.0)))

-- On every text InfoModel::parseIESpec either returns an element or throws: its loop ends, with fuel for
-- every character, and its assertion, that an enterprise number is never set without the number of the
-- element, holds in every round.
pub parse_ie_spec-total :
    (text : List ℕ)
    → ((ie : InfoElement) × (parse_ie_spec text ≡ ok ie)) ⊎ (parse_ie_spec text ≡ thrown)
unfolding parse_ie_spec
parse_ie_spec-total text = elim (Bool-cases (has_part text)) [
  | inr e ↦ inl (name_only text, rw (e, parse_ie_spec) refl)
  | inl e ↦ elim (Yields-cases (parse_parts-Yields (length text) blank text refl (omega arith))) [
    | inl (s, k) ↦ inl (element_of s, rw (e, k, parse_ie_spec) refl)
    | inr k ↦ inr (rw (e, k, parse_ie_spec) refl)
  ]
]
