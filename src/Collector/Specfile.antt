-- ===== src/Collector/Specfile.antt =====
-- lib/libfc.cpp: libfc_add_specfile.
use libfc.Prelude.{
  ℕ, ◌+◌, ◌≡◌, refl, Bool, true, false, List, [], ◌∷◌, Option, none, some, Outcome, ok, thrown,
  aborted, undefined, exhausted,
}
use libfc.Info.Model.{InfoModel, add_spec}

-- The loop over the lines. Behind the first line the file is closed, so that no further line is read.
unfoldable pub add_lines : Bool → List (List ℕ) → ℕ → InfoModel → Outcome (ℕ × InfoModel)
add_lines is_open [] i m = ok (i, m)
add_lines false (line ∷ lines) i m = ok (i, m)
add_lines true (line ∷ lines) i m = elim (add_spec m line) [
  | ok m' ↦ add_lines false lines (i + 1) m'
  | thrown ↦ ok (0, m)
  | aborted ↦ aborted
  | undefined ↦ undefined
  | exhausted ↦ exhausted
]

-- libfc_add_specfile, for the lines of a file, or for one that cannot be opened.
unfoldable pub libfc_add_specfile : Option (List (List ℕ)) → InfoModel → Outcome (ℕ × InfoModel)
libfc_add_specfile none m = ok (0, m)
libfc_add_specfile (some lines) m = add_lines true lines 0 m

-- What the rest of the loop comes to, whatever follows.
add_lines_open :
    (line : List ℕ) (lines : List (List ℕ)) (m : InfoModel)
    → add_lines true (line ∷ lines) 0 m ≡ add_lines true (line ∷ []) 0 m
unfolding add_lines
add_lines_open line [] m = refl
add_lines_open line (next ∷ lines) m = refl

-- Of a file with specifications only the first line is added: what the lines behind it say changes
-- neither the result nor the information model.
pub libfc_add_specfile_first :
    (line : List ℕ) (lines : List (List ℕ)) (m : InfoModel)
    → libfc_add_specfile (some (line ∷ lines)) m ≡ libfc_add_specfile (some (line ∷ [])) m
unfolding libfc_add_specfile
libfc_add_specfile_first line lines m = add_lines_open line lines m
