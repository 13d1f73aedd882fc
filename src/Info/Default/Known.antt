-- ===== src/Info/Default/Known.antt =====
-- Adding specifications to a model of lib/InfoModel.cpp makes their elements known.
use libfc.Prelude.{
  ℕ, Bool, true, false, ◌&&◌, ◌≡◌, refl, List, [], ◌∷◌, some, ok, Outcome, All, aborted, undefined,
  exhausted, thrown,
}
use libfc.Info.Types.{InfoElement}
use libfc.Info.Spec.{parse_ie_spec}
use libfc.Info.Model.{InfoModel, find_ie, is_complete, add_spec, add_specs}
use libfc.Info.Registry.{find_ie-add, find_ie-added, add-ok}

-- A specification of an element that can be added.
abbrev pub completes : Outcome InfoElement → Bool
completes (ok ie) = is_complete ie
completes thrown = false
completes aborted = false
completes undefined = false
completes exhausted = false

abbrev pub is_complete_spec : List ℕ → Bool
is_complete_spec spec = completes (parse_ie_spec spec)

abbrev pub all_complete : List (List ℕ) → Bool
all_complete [] = true
all_complete (spec ∷ specs) = is_complete_spec spec && all_complete specs

complete_element :
    (o : Outcome InfoElement)
    → completes o ≡ true
    → (ie : InfoElement) × (o ≡ ok ie) × (is_complete ie ≡ true)
complete_element (ok ie) h = (ie, refl, h)
complete_element thrown h = cc
complete_element aborted h = cc
complete_element undefined h = cc
complete_element exhausted h = cc

pub and_parts : (a b : Bool) → (a && b) ≡ true → (a ≡ true) × (b ≡ true)
and_parts true b h = (refl, h)
and_parts false b h = cc

-- The numbers of a specification are registered.
abbrev pub IsKnown : InfoModel → List ℕ → Type 0
IsKnown m spec =
    (ie : InfoElement) × (x : InfoElement) × (parse_ie_spec spec ≡ ok ie)
    × (find_ie m.registry ie.pen ie.number ≡ some x)

-- A model that has all that another has.
abbrev pub Extends : InfoModel → InfoModel → Type 0
Extends m m' =
    (pen number : ℕ) (x : InfoElement)
    → find_ie m.registry pen number ≡ some x
    → find_ie m'.registry pen number ≡ some x

add_spec-IsKnown :
    (m : InfoModel) (spec : List ℕ)
    → is_complete_spec spec ≡ true
    → (m' : InfoModel) × (add_spec m spec ≡ ok m') × IsKnown m' spec × Extends m m'
unfolding add_spec
add_spec-IsKnown m spec h =
    let (ie, p, c) = complete_element (parse_ie_spec spec) h in
    let ((e, m'), a) = add-ok m ie c in
    let (x, k) = find_ie-added m m' ie e a in
    (
      m',
      rw (p, a, add_spec) refl,
      (ie, x, p, k),
      λ pen number y known. find_ie-add m m' ie e y pen number a known,
    )

pub add_specs-IsKnown :
    (m : InfoModel) (specs : List (List ℕ))
    → all_complete specs ≡ true
    → (m' : InfoModel) × (add_specs m specs ≡ ok m') × All (IsKnown m') specs × Extends m m'
unfolding add_specs
add_specs-IsKnown m [] h = (m, refl, tt, λ pen number x k. k)
add_specs-IsKnown m (spec ∷ specs) h =
    let (h0, h1) = and_parts (is_complete_spec spec) (all_complete specs) h in
    let (m1, a1, (ie, x, p, k), e1) = add_spec-IsKnown m spec h0 in
    let (m2, a2, known, e2) = add_specs-IsKnown m1 specs h1 in
    (
      m2,
      rw (a1, add_specs) a2,
      ((ie, x, p, e2 ie.pen ie.number x k), known),
      λ pen number y k'. e2 pen number y (e1 pen number y k'),
    )

-- What is known stays known.
pub IsKnown-Extends :
    (m m' : InfoModel) (specs : List (List ℕ))
    → Extends m m'
    → All (IsKnown m) specs
    → All (IsKnown m') specs
IsKnown-Extends m m' [] e v = tt
IsKnown-Extends m m' (spec ∷ specs) e ((ie, x, p, k), v) =
    ((ie, x, p, e ie.pen ie.number x k), IsKnown-Extends m m' specs e v)
