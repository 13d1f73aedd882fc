-- ===== src/Placement/Matched.antt =====
-- lib/PlacementTemplate.cpp: how many elements PlacementTemplate::is_match finds, and how many it does not.
use libfc.Prelude.{
  ℕ, ◌+◌, ◌≡◌, ◌≢◌, ◌<◌, refl, arith, Bool, true, false, List, [], ◌∷◌, ◌==◌, All, Bool-cases, inl,
  inr, length,
}
use libfc.Info.Types.{InfoElement, matches}
use libfc.Info.Template.{contains}
use libfc.Placement.Template.{
  PlacementInfo, PlacementTemplate, all_found, is_placed, is_match, insert_ie, unmatched,
}

-- No two elements have the same enterprise and number, and no two are the same object.
abbrev pub AreDistinct : List InfoElement → Type 0
AreDistinct [] = Unit {0}
AreDistinct (x ∷ xs) =
    All (λ y. (matches x y ≡ false) × (x.address ≢ y.address)) xs × AreDistinct xs

abbrev pub AreDistinctKeys : List (InfoElement × PlacementInfo) → Type 0
AreDistinctKeys [] = Unit {0}
AreDistinctKeys ((k, v) ∷ m) = All (λ (j, w). matches k j ≡ false) m × AreDistinctKeys m

abbrev one_if : Bool → ℕ
one_if true = 1
one_if false = 0

abbrev count : (InfoElement → Bool) → List InfoElement → ℕ
count f [] = 0
count f (x ∷ xs) = one_if (f x) + count f xs

matches_sym : (x y : InfoElement) → matches x y ≡ matches y x
unfolding matches
matches_sym x y = ground arith

matches_triangle :
    (k x y : InfoElement) → matches k x ≡ true → matches k y ≡ true → matches x y ≡ true
unfolding matches
matches_triangle k x y a b = ground (arith)

matches_sides : (j k x : InfoElement) → matches j x ≡ true → matches k x ≡ true → matches j k ≡ true
unfolding matches
matches_sides j k x a b = ground (arith)

-- An element that matches the first of distinct ones matches none of the others.
count-none :
    (k x : InfoElement) (xs : List InfoElement)
    → matches k x ≡ true
    → All (λ y. (matches x y ≡ false) × (x.address ≢ y.address)) xs
    → count (matches k) xs ≡ 0
count-none k x [] h v = refl
count-none k x (y ∷ xs) h v = elim (Bool-cases (matches k y)) [
  | inl e ↦ absurd (ground (arith, matches_triangle k x y h e, v.0.0))
  | inr e ↦ rw e (omega (arith, count-none k x xs h v.1))
]

count-one :
    (k : InfoElement) (xs : List InfoElement)
    → AreDistinct xs
    → contains xs k ≡ true
    → count (matches k) xs ≡ 1
unfolding contains
count-one k [] v h = absurd (ground (arith))
count-one k (x ∷ xs) v h = elim (Bool-cases (matches k x)) [
  | inl e ↦ rw e (omega (arith, count-none k x xs e v.0))
  | inr e ↦
      let rest : contains xs k ≡ true = ground (arith, matches_sym x k) in
      rw e (omega (arith, count-one k xs v.1 rest))
]

count-is_placed_empty : (xs : List InfoElement) → count (is_placed []) xs ≡ 0
unfolding is_placed
count-is_placed_empty [] = refl
count-is_placed_empty (x ∷ xs) = omega (arith, count-is_placed_empty xs)

-- An element that matches a key that none of the others matches is not placed by these.
is_placed_apart :
    (k x : InfoElement) (m : List (InfoElement × PlacementInfo))
    → All (λ (j, w). matches k j ≡ false) m
    → matches k x ≡ true
    → is_placed m x ≡ false
unfolding is_placed
is_placed_apart k x [] v h = refl
is_placed_apart k x ((j, w) ∷ m) v h = elim (Bool-cases (matches j x)) [
  | inl e ↦ absurd (ground (arith, matches_sides k j x h e, v.0))
  | inr e ↦ rw e (is_placed_apart k x m v.1 h)
]

count-split :
    (k : InfoElement) (i : PlacementInfo) (m : List (InfoElement × PlacementInfo))
    (xs : List InfoElement)
    → All (λ (j, w). matches k j ≡ false) m
    → count (is_placed ((k, i) ∷ m)) xs ≡ count (matches k) xs + count (is_placed m) xs
unfolding is_placed
count-split k i m [] v = omega arith
count-split k i m (x ∷ xs) v = elim (Bool-cases (matches k x)) [
  | inl e ↦ rw (e, is_placed_apart k x m v e) (omega (arith, count-split k i m xs v))
  | inr e ↦ rw e (omega (arith, count-split k i m xs v))
]

count-is_placed :
    (m : List (InfoElement × PlacementInfo)) (xs : List InfoElement)
    → AreDistinctKeys m
    → AreDistinct xs
    → all_found m xs ≡ true
    → count (is_placed m) xs ≡ length m
unfolding all_found
count-is_placed [] xs d v h = count-is_placed_empty xs
count-is_placed ((k, i) ∷ m) xs d v h =
    let here : contains xs k ≡ true = ground (arith) in
    let there : all_found m xs ≡ true = ground (arith) in
    omega (arith, count-split k i m xs d.0, count-one k xs v here, count-is_placed m xs d.1 v there)

-- An object that is not among others.
abbrev IsApart : InfoElement → List InfoElement → Type 0
IsApart x xs = All (λ y. x.address ≢ y.address) xs

insert_ie-IsApart :
    (x ie : InfoElement) (xs : List InfoElement)
    → x.address ≢ ie.address
    → IsApart x xs
    → IsApart x (insert_ie ie xs)
unfolding insert_ie
insert_ie-IsApart x ie [] n v = (n, tt)
insert_ie-IsApart x ie (y ∷ xs) n v = elim (Bool-cases (y.address == ie.address)) [
  | inl e ↦ rw e v
  | inr e ↦ rw e (v.0, insert_ie-IsApart x ie xs n v.1)
]

unmatched-IsApart :
    (t : PlacementTemplate) (x : InfoElement) (xs : List InfoElement)
    → All (λ y. (matches x y ≡ false) × (x.address ≢ y.address)) xs
    → IsApart x (unmatched t xs)
unfolding unmatched
unmatched-IsApart t x [] v = tt
unmatched-IsApart t x (y ∷ xs) v = elim (Bool-cases (is_placed t.placements y)) [
  | inl e ↦ rw e (unmatched-IsApart t x xs v.1)
  | inr e ↦ rw e (insert_ie-IsApart x y (unmatched t xs) v.0.1 (unmatched-IsApart t x xs v.1))
]

length-insert_ie :
    (ie : InfoElement) (xs : List InfoElement)
    → IsApart ie xs
    → length (insert_ie ie xs) ≡ length xs + 1
unfolding insert_ie
length-insert_ie ie [] v = omega arith
length-insert_ie ie (x ∷ xs) v = ground (arith, length-insert_ie ie xs v.1, v.0)

length-unmatched :
    (t : PlacementTemplate) (xs : List InfoElement)
    → AreDistinct xs
    → length (unmatched t xs) + count (is_placed t.placements) xs ≡ length xs
unfolding unmatched
length-unmatched t [] v = omega arith
length-unmatched t (x ∷ xs) v = elim (Bool-cases (is_placed t.placements x)) [
  | inl e ↦ rw e (omega (arith, length-unmatched t xs v.1))
  | inr e ↦ rw e (
      omega (
        arith,
        length-unmatched t xs v.1,
        length-insert_ie x (unmatched t xs) (unmatched-IsApart t x xs v.0),
      ))
]

-- Where no two placed elements and no two elements of a wire template have the same numbers, and every
-- placed element is in the wire template, the elements that match and those that do not make up the
-- wire template.
pub unmatched-is_match :
    (t : PlacementTemplate) (wire : List InfoElement)
    → AreDistinctKeys t.placements
    → AreDistinct wire
    → 0 < is_match t wire
    → length (unmatched t wire) + is_match t wire ≡ length wire
unfolding is_match
unmatched-is_match t wire d v h = elim (Bool-cases (all_found t.placements wire)) [
  | inl e ↦ rw e (omega (arith, length-unmatched t wire v, count-is_placed t.placements wire d v e))
  | inr e ↦ absurd (ground (arith))
]
