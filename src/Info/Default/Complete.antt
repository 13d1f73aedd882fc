-- ===== src/Info/Default/Complete.antt =====
-- The default tables of lib/InfoModel.cpp can be added to every model, and are known then.
use mathlib.Core.Path.{subst}
use libfc.Prelude.{
  sym, Outcome, span, same_text, ℕ, Bool, true, ◌≡◌, refl, List, [], ◌∷◌, ◌++◌, ok, All,
}
use libfc.Info.Spec.{
  parse_ie_spec, has_part, opens, parse_parts, parse_part, parse_name_part, parse_number_part,
  parse_num_pen, match_char, parse_type_part, parse_until, close_part, parse_length_part,
  parse_length, bracketed_length, length_of, parse_context_part, element_of,
}
use libfc.Info.Decimal.{
  read_number, read_signed, skip_space, is_space, read_unsigned, is_digit, read_digits,
}
use libfc.Info.Names.{find_type, lookup_ie_type, type_name}
use libfc.Info.Model.{InfoModel, is_complete}
use libfc.Info.Default.Ipfix1.{ipfix_specs_1}
use libfc.Info.Default.Ipfix2.{ipfix_specs_2}
use libfc.Info.Default.Ipfix3.{ipfix_specs_3}
use libfc.Info.Default.Reverse1.{reverse_specs_1}
use libfc.Info.Default.Reverse2.{reverse_specs_2}
use libfc.Info.Default.Reverse3.{reverse_specs_3}
use libfc.Info.Default.Tables.{ipfix_specs, reverse_specs, default_ipfix, default_5103}
use libfc.Info.Default.Known.{
  is_complete_spec, all_complete, and_parts, IsKnown, Extends, add_specs-IsKnown, IsKnown-Extends,
}

-- The same test, with all that it calls in the open.
unfoldable computes_complete : List (List ℕ) → Bool
unfolding is_complete has_part opens parse_ie_spec parse_parts parse_part parse_name_part
    parse_number_part parse_num_pen match_char parse_type_part parse_until close_part
    parse_length_part parse_length bracketed_length length_of parse_context_part element_of span
    read_number read_signed skip_space is_space read_unsigned is_digit read_digits find_type
    lookup_ie_type type_name same_text
computes_complete specs = all_complete specs

computes : (specs : List (List ℕ)) → computes_complete specs ≡ true → all_complete specs ≡ true
unfolding computes_complete
computes specs h = h

complete_ipfix_specs_1 : computes_complete ipfix_specs_1 ≡ true
unfolding computes_complete
complete_ipfix_specs_1 = refl

complete_ipfix_specs_2 : computes_complete ipfix_specs_2 ≡ true
unfolding computes_complete
complete_ipfix_specs_2 = refl

complete_ipfix_specs_3 : computes_complete ipfix_specs_3 ≡ true
unfolding computes_complete
complete_ipfix_specs_3 = refl

complete_reverse_specs_1 : computes_complete reverse_specs_1 ≡ true
unfolding computes_complete
complete_reverse_specs_1 = refl

complete_reverse_specs_2 : computes_complete reverse_specs_2 ≡ true
unfolding computes_complete
complete_reverse_specs_2 = refl

complete_reverse_specs_3 : computes_complete reverse_specs_3 ≡ true
unfolding computes_complete
complete_reverse_specs_3 = refl

all_complete_append :
    (xs ys : List (List ℕ))
    → all_complete xs ≡ true
    → all_complete ys ≡ true
    → all_complete (xs ++ ys) ≡ true
all_complete_append [] ys h k = k
all_complete_append (x ∷ xs) ys h k =
    let (h0, h1) = and_parts (is_complete_spec x) (all_complete xs) h in
    rw (h0, all_complete_append xs ys h1 k) refl

three_complete :
    (xs ys zs : List (List ℕ))
    → computes_complete xs ≡ true
    → computes_complete ys ≡ true
    → computes_complete zs ≡ true
    → all_complete (xs ++ (ys ++ zs)) ≡ true
three_complete xs ys zs x y z =
    all_complete_append xs (ys ++ zs) (computes xs x)
      (all_complete_append ys zs (computes ys y) (computes zs z))

ipfix_complete : all_complete ipfix_specs ≡ true
unfolding ipfix_specs
ipfix_complete =
    three_complete ipfix_specs_1 ipfix_specs_2 ipfix_specs_3 complete_ipfix_specs_1
      complete_ipfix_specs_2 complete_ipfix_specs_3

reverse_complete : all_complete reverse_specs ≡ true
unfolding reverse_specs
reverse_complete =
    three_complete reverse_specs_1 reverse_specs_2 reverse_specs_3 complete_reverse_specs_1
      complete_reverse_specs_2 complete_reverse_specs_3

-- A call succeeds with a model that knows both tables and extends the one before it.
pub data AddsDefaults (m : InfoModel) : Outcome InfoModel → Type 0 where
  adds_defaults :
      (m' : InfoModel)
      → All (IsKnown m') ipfix_specs
      → All (IsKnown m') reverse_specs
      → Extends m m'
      → AddsDefaults m (ok m')

-- InfoModel::default5103 succeeds on every model, and leaves a model that knows every element of both
-- tables, each under its enterprise number and its number, and still has every element that it had.
pub default_5103-AddsDefaults : (m : InfoModel) → AddsDefaults m (default_5103 m)
unfolding default_5103 default_ipfix
default_5103-AddsDefaults m =
    let (m1, a1, known1, e1) = add_specs-IsKnown m ipfix_specs ipfix_complete in
    let (m2, a2, known2, e2) = add_specs-IsKnown m1 reverse_specs reverse_complete in
    let added : default_5103 m ≡ ok m2 = rw (a1, default_5103) a2 in
    subst (λ o. AddsDefaults m o) (sym added)
      (adds_defaults m2 (IsKnown-Extends m1 m2 ipfix_specs e2 known1) known2
        λ pen number x k. e2 pen number x (e1 pen number x k))
