-- ===== src/Info/Consistent.antt =====
-- An invariant of the registries of lib/InfoModel.cpp.
use libfc.Prelude.{ℕ, ◌≡◌, ◌<◌, List, some, All}
use libfc.Info.Types.{InfoElement}
use libfc.Info.Model.{InfoModel, find_ie}

-- An entry of the name registry is an element of its name that is registered under its numbers.
abbrev pub IsEntry : List InfoElement → List ℕ × InfoElement → Type 0
IsEntry registry (name, ie) = (ie.name ≡ name) × (find_ie registry ie.pen ie.number ≡ some ie)

-- The name registry points into the registries by number, and every element is older than the next.
pub record IsConsistent (m : InfoModel) : Type 0 where
  pub entries : All (IsEntry m.registry) m.names
  pub registered_older : All (λ ie. ie.address < m.next) m.registry
  pub derived_older : All (λ ie. ie.address < m.next) m.derived
