-- ===== src/Info/Template.antt =====
-- lib/IETemplate.cpp: the elements of a wire template, in order.
use libfc.Prelude.{
  ℕ, ◌+◌, ◌≡◌, refl, arith, Bool, true, false, List, [], ◌∷◌, ◌++◌, ◌==◌, ◌&&◌, ◌||◌, if◌then◌else◌,
}
use libfc.Info.Types.{InfoElement, ipfix_varlen, matches}

pub record IeTemplate : Type 0 where
  pub ies : List InfoElement
  pub minlen : ℕ

abbrev pub empty : IeTemplate
empty = record { ies = []; minlen = 0 }

-- IETemplate::contains, whose loop is IETemplate::find.
unfoldable pub contains : List InfoElement → InfoElement → Bool
contains [] ie = false
contains (x ∷ xs) ie = matches x ie || contains xs ie

-- IETemplate::containsAll, over the elements of the argument.
unfoldable pub contains_all : List InfoElement → List InfoElement → Bool
contains_all ies [] = true
contains_all ies (x ∷ xs) = contains ies x && contains_all ies xs

-- IETemplate::add.
unfoldable pub add : IeTemplate → InfoElement → IeTemplate
add t ie = record {
  ies = t.ies ++ (ie ∷ []);
  minlen = t.minlen + (if ie.len == ipfix_varlen then 1 else ie.len);
}

-- IETemplate::operator==, which compares the elements' addresses.
unfoldable pub same : List InfoElement → List InfoElement → Bool
same [] [] = true
same (l ∷ ls) (r ∷ rs) = (l.address == r.address) && same ls rs
same _ _ = false

pub same_refl : (ies : List InfoElement) → same ies ies ≡ true
unfolding same
same_refl [] = refl
same_refl (x ∷ xs) = ground (arith, same_refl xs)
