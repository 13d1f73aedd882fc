-- ===== src/Ipfix/Sets.antt =====
-- The sets of a message, as IPFIXMessageStreamParser::parse finds them.
use libfc.Prelude.{
  ℕ, zero, suc, ◌+◌, ◌-◌, ◌^◌, ◌≡◌, ◌≤◌, ◌<◌, refl, sym, ◌∙◌, arith, false, List, [], ◌∷◌, ◌++◌,
  some, ltb, leb, ◌==◌, if◌then◌else◌, length, length-append, drop, take-append, drop-append, All,
  ok, le→not_ltb,
}
use libfc.Wire.{encode16, decode_uint16-encode16}
use libfc.Errors.{Call, return_ok, return_error, recoverable, format_error, ◌>=>◌, >=>-cong}
use libfc.Ipfix.Content.{ContentHandler}
use libfc.Ipfix.Parser.{SetIds, view, decode_set_header, handle_set, parse_sets}

-- A set: its ID and its content, framed by a header.
abbrev pub set_octets : ℕ × List ℕ → List ℕ
set_octets (id, content) = encode16 id ++ (encode16 (4 + length content) ++ content)

abbrev pub all_sets : List (ℕ × List ℕ) → List ℕ
all_sets [] = []
all_sets (s ∷ sets) = set_octets s ++ all_sets sets

abbrev pub IsSmallSet : ℕ × List ℕ → Type 0
IsSmallSet (id, content) = (id < 2 ^ 16) × (4 + length content < 2 ^ 16)

view_framed : (content rest : List ℕ) → view (4 + length content) (content ++ rest) ≡ ok content
unfolding view
view_framed content rest =
    let whole = take-append (4 + length content - 4) content rest (omega arith) in
    ground (arith, whole)

pub length-set_octets :
    (id : ℕ) (content : List ℕ) → length (set_octets (id, content)) ≡ 4 + length content
unfolding encode16
length-set_octets id content = omega arith

-- There are no more sets than octets.
pub length-all_sets : (sets : List (ℕ × List ℕ)) → length sets ≤ length (all_sets sets)
length-all_sets [] = omega arith
length-all_sets ((id, content) ∷ sets) = omega (
  arith,
  length-all_sets sets,
  length-set_octets id content,
  length-append (set_octets (id, content)) (all_sets sets),
)

decode_set_header-set_octets :
    (id : ℕ) (content rest : List ℕ)
    → IsSmallSet (id, content)
    → decode_set_header (set_octets (id, content) ++ rest)
      ≡ some (id, 4 + length content, content ++ rest)
unfolding decode_set_header encode16
decode_set_header-set_octets id content rest v =
    ground (arith, decode_uint16-encode16 id v.0, decode_uint16-encode16 (4 + length content) v.1)

module _ (ids : SetIds) (ch : ContentHandler) where
  open ch use {
    State, start_template_set, end_template_set, start_options_template_set,
    end_options_template_set, start_data_set, end_data_set,
  }

  -- The events for a set.
  abbrev pub deliver : ℕ → List ℕ → State → Call State
  deliver id content s =
      if id == ids.template_set
      then (start_template_set id content s >=> end_template_set)
      else if id == ids.options_template_set
      then (start_options_template_set id content s >=> end_options_template_set)
      else if leb ids.min_data_set id
      then (start_data_set id content s >=> end_data_set)
      else return_error recoverable format_error s

  abbrev pub deliver_all : List (ℕ × List ℕ) → State → Call State
  deliver_all [] s = return_ok s
  deliver_all ((id, content) ∷ sets) s = deliver id content s >=> deliver_all sets

  handle_set-deliver :
      (id : ℕ) (content rest : List ℕ) (s : State)
      → handle_set ids ch id (4 + length content) (content ++ rest) s ≡ deliver id content s
  unfolding handle_set
  handle_set-deliver id content rest s = rw (view_framed content rest, handle_set) refl

  parse_sets-set_octets :
      (fuel id : ℕ) (content rest : List ℕ) (s : State)
      → IsSmallSet (id, content)
      → parse_sets ids ch (suc fuel) (set_octets (id, content) ++ rest) s
        ≡ deliver id content s >=> parse_sets ids ch fuel rest
  unfolding parse_sets
  parse_sets-set_octets fuel id content rest s v =
      let whole = set_octets (id, content) in
      let fits : ltb (length (whole ++ rest)) (4 + length content) ≡ false =
        grind (arith, le→not_ltb, length-append whole rest, length-set_octets id content) in
      let rest' : drop (4 + length content) (whole ++ rest) ≡ rest =
        drop-append (4 + length content) whole rest (sym (length-set_octets id content)) in
      rw
        (
          decode_set_header-set_octets id content rest v,
          fits,
          handle_set-deliver id content rest s,
          rest',
          parse_sets,
        )
        refl

  -- The sets of a message that is a sequence of framed sets are handed over one by one, in order, each
  -- with its ID and exactly its content, up to the first reply that is an error.
  pub parse_sets-all_sets :
      (sets : List (ℕ × List ℕ)) (fuel : ℕ) (s : State)
      → All IsSmallSet sets
      → length sets ≤ fuel
      → parse_sets ids ch fuel (all_sets sets) s ≡ deliver_all sets s
  unfolding parse_sets decode_set_header
  parse_sets-all_sets [] zero s v l = refl
  parse_sets-all_sets [] (suc fuel) s v l = refl
  parse_sets-all_sets ((id, content) ∷ sets) zero s v l = absurd (omega arith)
  parse_sets-all_sets ((id, content) ∷ sets) (suc fuel) s v l =
      parse_sets-set_octets fuel id content (all_sets sets) s v.0
      ∙ >=>-cong (deliver id content s) _ _
          (λ s'. parse_sets-all_sets sets fuel s' v.1 (omega arith))
