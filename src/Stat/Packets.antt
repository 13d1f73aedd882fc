-- ===== src/Stat/Packets.antt =====
-- What repeated calls of StatParser::next_p in lib/StatParser.cpp give.
use mathlib.Core.Path.{subst}
use libfc.Prelude.{
  ℕ, ◌+◌, ◌%◌, ◌^◌, Bool, ◌≡◌, sym, ap, ◌∙◌, arith, refl, true, false, List, [], ◌∷◌, ◌++◌, Option,
  none, some, length, All, Bool-cases, Option-cases, inl, inr,
}
use libfc.Stat.Line.{Packet, parse_p}
use libfc.Stat.Parser.{
  StatState, good_state, StatParser, behind_p, is_good, end_line, end_state, find_p, next_p,
}
use libfc.Stat.Printed.{IsPacket, print_p, parse_p-print_p}

-- A line that next_p passes over.
abbrev pub IsOther : List ℕ → Type 0
IsOther line = behind_p line ≡ none

abbrev pub parser_at : List (List ℕ) → Bool → Bool → ℕ → StatState → StatParser
parser_at lines at_eof failed line_no state = record {
  lines = lines;
  at_eof = at_eof;
  failed = failed;
  line_no = line_no;
  state = state;
}

find_p_round :
    (line : List ℕ) (lines : List (List ℕ)) (p : StatParser)
    → IsOther line
    → find_p (line ∷ lines) p ≡ find_p lines (record p { line_no = (p.line_no + 1) % 2 ^ 32 })
unfolding find_p
find_p_round line lines p e = rw (e, find_p) refl

find_p-other :
    (others rest : List (List ℕ)) (text : List ℕ) (packet : Packet) (p : StatParser)
    → All IsOther others
    → parse_p text ≡ some packet
    → find_p (others ++ ((b'P' ∷ text) ∷ rest)) p
      ≡ (some packet, record p { lines = rest; line_no = (p.line_no + length others + 1) % 2 ^ 32 })
unfolding find_p behind_p end_line
find_p-other [] rest text packet p v e =
    let counted : (p.line_no + 1) % 2 ^ 32 ≡ (p.line_no + 0 + 1) % 2 ^ 32 = omega arith in
    rw (e, find_p) (ap (λ k. (some packet, record p { lines = rest; line_no = k })) counted)
find_p-other (line ∷ others) rest text packet p v e =
    let p' = record p { line_no = (p.line_no + 1) % 2 ^ 32 } in
    let counted : (p'.line_no + length others + 1) % 2 ^ 32
        ≡ (p.line_no + length (line ∷ others) + 1) % 2 ^ 32 =
      omega arith in
    find_p_round line (others ++ ((b'P' ∷ text) ∷ rest)) p v.0
    ∙ find_p-other others rest text packet p' v.1 e
    ∙ ap (λ k. (some packet, record p { lines = rest; line_no = k })) counted

-- A good parser before lines that are no P-lines and a P-line that was written for a packet gives that
-- packet, and stays good, behind that line, with all lines counted in an unsigned int.
pub next_p-print_p :
    (others rest : List (List ℕ)) (number seconds fraction line_no : ℕ) (packet : Packet)
    (at_eof failed : Bool)
    → All IsOther others
    → IsPacket packet
    → next_p (
        parser_at
          (others ++ ((b'P' ∷ print_p number seconds fraction packet) ∷ rest))
          at_eof
          failed
          line_no
          good_state)
      ≡ (
        some packet,
        parser_at rest at_eof failed ((line_no + length others + 1) % 2 ^ 32) good_state,
      )
unfolding next_p
next_p-print_p others rest number seconds fraction line_no packet at_eof failed v k =
    let text = print_p number seconds fraction packet in
    find_p-other others rest text packet
      (parser_at (others ++ ((b'P' ∷ text) ∷ rest)) at_eof failed line_no good_state) v
      (parse_p-print_p number seconds fraction packet k)

end_state-IsBad : (at_eof failed : Bool) → is_good (end_state at_eof failed) ≡ false
unfolding end_state
end_state-IsBad true failed = refl
end_state-IsBad false true = refl
end_state-IsBad false false = refl

-- A parser that has given no packet is in a state that is not good.
end_line_stops :
    (o : Option Packet) (p : StatParser)
    → (end_line o p).0 ≡ none
    → is_good (end_line o p).1.state ≡ false
unfolding end_line
end_line_stops none p h = refl
end_line_stops (some packet) p h = cc

find_p_stops :
    (lines : List (List ℕ)) (p : StatParser)
    → (find_p lines p).0 ≡ none
    → is_good (find_p lines p).1.state ≡ false
unfolding find_p
find_p_stops [] p h = end_state-IsBad p.at_eof p.failed
find_p_stops (line ∷ lines) p h = elim (Option-cases (behind_p line)) [
  | inl e ↦
      let skipped = find_p_round line lines p e in
      subst (λ r. is_good r.1.state ≡ false) (sym skipped)
        (find_p_stops lines (record p { line_no = (p.line_no + 1) % 2 ^ 32 })
          (sym (ap (λ r. r.0) skipped) ∙ h))
  | inr (text, e) ↦
      let p' = record p { lines = lines; line_no = (p.line_no + 1) % 2 ^ 32 } in
      let ended : find_p (line ∷ lines) p ≡ end_line (parse_p text) p' = rw (e, find_p) refl in
      subst (λ r. is_good r.1.state ≡ false) (sym ended)
        (end_line_stops (parse_p text) p' (sym (ap (λ r. r.0) ended) ∙ h))
]

next_p_bad : (p : StatParser) → is_good p.state ≡ false → next_p p ≡ (none, p)
unfolding next_p
next_p_bad p e = rw (e, next_p) refl

next_p_good : (p : StatParser) → is_good p.state ≡ true → next_p p ≡ find_p p.lines p
unfolding next_p
next_p_good p e = rw (e, next_p) refl

-- Once next_p has given no packet, because a line was malformed, the file was at its end, or reading
-- failed, the parser stays as it is: every further call gives no packet and changes nothing.
pub next_p_stops :
    (p : StatParser) → (next_p p).0 ≡ none → next_p (next_p p).1 ≡ (none, (next_p p).1)
next_p_stops p h =
    let Stops : Option Packet × StatParser → Type 0 = λ r. next_p r.1 ≡ (none, r.1) in
    elim (Bool-cases (is_good p.state)) [
      | inr e ↦ subst Stops (sym (next_p_bad p e)) (next_p_bad p e)
      | inl e ↦
          let found = next_p_good p e in
          subst Stops (sym found) (
            next_p_bad (find_p p.lines p).1
              (find_p_stops p.lines p (sym (ap (λ r. r.0) found) ∙ h)))
    ]
