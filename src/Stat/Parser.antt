-- ===== src/Stat/Parser.antt =====
-- lib/StatParser.h and lib/StatParser.cpp: the state of the parser, and StatParser::next_p.
use libfc.Prelude.{ℕ, ◌+◌, ◌%◌, ◌^◌, Bool, true, false, List, [], ◌∷◌, Option, none, some, ◌==◌}
use libfc.Stat.Line.{Packet, parse_p}

pub data StatState : Type 0 where
  init good_state eof_state parse_error io_error other_error : StatState

-- `lines` is what std::getline still gives; `at_eof` and `failed` are what is.eof () and
-- is.fail () || is.bad () say where it gives no more. The text of the message is left out.
pub record StatParser : Type 0 where
  pub lines : List (List ℕ)
  pub at_eof : Bool
  pub failed : Bool
  pub line_no : ℕ
  pub state : StatState

-- The constructor, for a file that can be opened.
abbrev pub stat_parser : List (List ℕ) → Bool → Bool → StatParser
stat_parser lines at_eof failed = record {
  lines = lines;
  at_eof = at_eof;
  failed = failed;
  line_no = 0;
  state = good_state;
}

-- The test whether a line is a P-line: what follows the `P`.
unfoldable pub behind_p : List ℕ → Option (List ℕ)
behind_p [] = none
behind_p (c ∷ cs) = elim (c == b'P') [ true ↦ some cs | false ↦ none ]

abbrev pub is_good : StatState → Bool
is_good good_state = true
is_good _ = false

-- What becomes of a P-line.
unfoldable pub end_line : Option Packet → StatParser → Option Packet × StatParser
end_line none p = (none, record p { state = parse_error })
end_line (some packet) p = (some packet, p)

-- The state where std::getline gives no more.
unfoldable pub end_state : Bool → Bool → StatState
end_state true failed = eof_state
end_state false true = io_error
end_state false false = other_error

-- The loop of next_p, up to the first P-line. `none` is the result false.
unfoldable pub find_p : List (List ℕ) → StatParser → Option Packet × StatParser
find_p [] p = (none, record p { lines = []; state = end_state p.at_eof p.failed })
find_p (line ∷ lines) p = elim (behind_p line) [
  | none ↦ find_p lines (record p { line_no = (p.line_no + 1) % 2 ^ 32 })
  | some text ↦
      end_line (parse_p text) (record p { lines = lines; line_no = (p.line_no + 1) % 2 ^ 32 })
]

-- StatParser::next_p.
unfoldable pub next_p : StatParser → Option Packet × StatParser
next_p p = elim (is_good p.state) [ true ↦ find_p p.lines p | false ↦ (none, p) ]
