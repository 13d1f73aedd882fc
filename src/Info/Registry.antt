-- ===== src/Info/Registry.antt =====
-- What InfoModel::add does to the registries of lib/InfoModel.cpp.
use mathlib.Core.Path.{subst}
use libfc.Prelude.{
  ok_injective, ◌∙◌, ◌≢◌, ap, ℕ, ◌+◌, ◌≡◌, ◌≢◌, refl, sym, arith, true, false, ◌||◌, List, ◌∷◌,
  none, some, Outcome, ok, thrown, ◌==◌, ==_refl, Bool-cases, Option-cases, inl, inr, ap,
}
use libfc.Info.Types.{InfoElement}
use libfc.Info.Model.{InfoModel, find_ie, find_len, for_len, lookup_ie, is_complete, add}

pub for_len_new :
    (m : InfoModel) (ie : InfoElement) (len : ℕ)
    → ((ie.len == len) || (len == 0)) ≡ false
    → find_len m.derived ie.pen ie.number len ≡ none
    → for_len m ie len ≡ (
      record ie { address = m.next; len = len },
      record m {
        derived = record ie { address = m.next; len = len } ∷ m.derived;
        next = m.next + 1;
      },
    )
unfolding for_len
for_len_new m ie len e k = rw (e, k, for_len) refl

pub for_len_cached :
    (m : InfoModel) (ie x : InfoElement) (len : ℕ)
    → ((ie.len == len) || (len == 0)) ≡ false
    → find_len m.derived ie.pen ie.number len ≡ some x
    → for_len m ie len ≡ (x, m)
unfolding for_len
for_len_cached m ie x len e k = rw (e, k, for_len) refl

pub for_len_same :
    (m : InfoModel) (ie : InfoElement) (len : ℕ)
    → ((ie.len == len) || (len == 0)) ≡ true
    → for_len m ie len ≡ (ie, m)
unfolding for_len
for_len_same m ie len e = rw (e, for_len) refl

-- The registry keeps what it has.
for_len-registry :
    (m : InfoModel) (ie : InfoElement) (len : ℕ) → (for_len m ie len).1.registry ≡ m.registry
unfolding for_len
for_len-registry m ie len = ground arith

pub find_ie_head :
    (x : InfoElement) (xs : List InfoElement) → find_ie (x ∷ xs) x.pen x.number ≡ some x
unfolding find_ie
find_ie_head x xs = rw (==_refl x.pen, ==_refl x.number, find_ie) refl

thrown_not_ok {ℓ} : {A : Type ℓ} {a : A} → ◌≢◌ {A = Outcome A} thrown (ok a)
thrown_not_ok e = cc

pub find_ie_behind :
    (y x : InfoElement) (xs : List InfoElement) (pen number : ℕ)
    → find_ie xs pen number ≡ some x
    → find_ie xs y.pen y.number ≡ none
    → find_ie (y ∷ xs) pen number ≡ some x
unfolding find_ie
find_ie_behind y x xs pen number k k' = ground arith

-- The cases of InfoModel::add.
add_old :
    (m : InfoModel) (ie x : InfoElement)
    → is_complete ie ≡ true
    → find_ie m.registry ie.pen ie.number ≡ some x
    → add m ie ≡ ok (for_len m x ie.len)
unfolding add lookup_ie
add_old m ie x c k = rw (c, k, add) refl

abbrev pub copied : InfoModel → InfoElement → InfoElement
copied m ie = record ie { address = m.next }

abbrev pub extended : InfoModel → InfoElement → InfoModel
extended m ie = record m {
  registry = copied m ie ∷ m.registry;
  names = (ie.name, copied m ie) ∷ m.names;
  next = m.next + 1;
}

pub add_new :
    (m : InfoModel) (ie : InfoElement)
    → is_complete ie ≡ true
    → find_ie m.registry ie.pen ie.number ≡ none
    → add m ie ≡ ok (copied m ie, extended m ie)
unfolding add lookup_ie
add_new m ie c k = rw (c, k, add) refl

add_incomplete : (m : InfoModel) (ie : InfoElement) → is_complete ie ≡ false → add m ie ≡ thrown
unfolding add
add_incomplete m ie c = rw (c, add) refl

-- What holds of the result in each case holds of what add returns.
pub add_result :
    (P : InfoElement × InfoModel → Type 0) (m : InfoModel) (ie : InfoElement)
    (r : InfoElement × InfoModel)
    → add m ie ≡ ok r
    → ((x : InfoElement) → find_ie m.registry ie.pen ie.number ≡ some x → P (for_len m x ie.len))
    → (find_ie m.registry ie.pen ie.number ≡ none → P (copied m ie, extended m ie))
    → P r
add_result P m ie r h old new = elim (Bool-cases (is_complete ie)) [
  | inr c ↦ absurd (thrown_not_ok (sym (add_incomplete m ie c) ∙ h))
  | inl c ↦ elim (Option-cases (find_ie m.registry ie.pen ie.number)) [
    | inr (x, k) ↦ subst P (ok_injective (sym (add_old m ie x c k) ∙ h)) (old x k)
    | inl k ↦ subst P (ok_injective (sym (add_new m ie c k) ∙ h)) (new k)
  ]
]

-- InfoModel::add never replaces a registered element, and the numbers that were added are registered.
pub find_ie-add :
    (m m' : InfoModel) (ie e x : InfoElement) (pen number : ℕ)
    → add m ie ≡ ok (e, m')
    → find_ie m.registry pen number ≡ some x
    → find_ie m'.registry pen number ≡ some x
find_ie-add m m' ie e x pen number h k =
    add_result (λ r. find_ie r.1.registry pen number ≡ some x) m ie (e, m') h
      (λ y k'. ap (λ xs. find_ie xs pen number) (for_len-registry m y ie.len) ∙ k)
      (λ k'. find_ie_behind (copied m ie) x m.registry pen number k k')

pub find_ie-added :
    (m m' : InfoModel) (ie e : InfoElement)
    → add m ie ≡ ok (e, m')
    → (x : InfoElement) × (find_ie m'.registry ie.pen ie.number ≡ some x)
find_ie-added m m' ie e h =
    add_result (λ r. (x : InfoElement) × (find_ie r.1.registry ie.pen ie.number ≡ some x)) m ie
      (e, m') h
      (λ x k. (x, ap (λ xs. find_ie xs ie.pen ie.number) (for_len-registry m x ie.len) ∙ k))
      (λ k. (copied m ie, find_ie_head (copied m ie) m.registry))

-- A complete element can be added.
pub add-ok :
    (m : InfoModel) (ie : InfoElement)
    → is_complete ie ≡ true
    → (r : InfoElement × InfoModel) × (add m ie ≡ ok r)
add-ok m ie c = elim (Option-cases (find_ie m.registry ie.pen ie.number)) [
  | inr (x, k) ↦ (for_len m x ie.len, add_old m ie x c k)
  | inl k ↦ ((copied m ie, extended m ie), add_new m ie c k)
]
