-- ===== src/Info/Untyped.antt =====
-- Elements of a type that is not known, in InfoModel::add of lib/InfoModel.cpp.
use libfc.Prelude.{
  false, ℕ, ◌≡◌, ◌<◌, arith, refl, true, false, List, [], ◌∷◌, none, ok, undefined, ◌==◌, length,
}
use libfc.Info.Types.{InfoElement}
use libfc.Info.Model.{is_empty, InfoModel, find_ie, is_complete, add_spec}
use libfc.Info.Spec.{parse_ie_spec}
use libfc.Info.Print.{to_ie_spec}
use libfc.Info.Registry.{copied, extended, add_new}

not_empty : (text : List ℕ) → 0 < length text → is_empty text ≡ false
not_empty [] n = absurd (omega arith)
not_empty (c ∷ cs) n = refl

is_complete_untyped :
    (ie : InfoElement)
    → 0 < length ie.name
    → 0 < ie.number
    → ie.ietype ≡ none
    → is_complete ie ≡ true
unfolding is_complete
is_complete_untyped ie n k e =
    let numbered : (ie.number == 0) ≡ false = ground arith in
    rw (not_empty ie.name n, numbered, e, is_complete) refl

-- InfoModel::add refuses the type `unknown', but not the null pointer that parseIESpec gives for the name
-- of a type that is not registered: such a specification, with a name and a number that is not yet
-- registered, enters an element whose type is null, and printing it uses the null pointer.
pub add_spec_untyped :
    (m : InfoModel) (text : List ℕ) (ie : InfoElement)
    → parse_ie_spec text ≡ ok ie
    → 0 < length ie.name
    → 0 < ie.number
    → ie.ietype ≡ none
    → find_ie m.registry ie.pen ie.number ≡ none
    → (add_spec m text ≡ ok (extended m ie)) × (to_ie_spec (copied m ie) ≡ undefined)
unfolding add_spec to_ie_spec
add_spec_untyped m text ie p n k e f =
    (rw (p, add_new m ie (is_complete_untyped ie n k e) f, add_spec) refl, rw (e, to_ie_spec) refl)
