-- ===== src/Table.antt =====
-- std::unordered_map with string keys, as the list of its entries. The library leaves the order of
-- iteration open; here it is the order of the list, and what is stated of the program holds for
-- every order. `erase` removes every entry of its key, and tables have one (`IsTable`).
pub mod Laws
use redi_craft.Prelude.{
  ◌≡◌, Bool, true, false, Option, none, some, List, [], ◌∷◌, if◌then◌else◌, Bytes, bytes_eq,
}

abbrev pub Table {ℓ} : Type ℓ → Type ℓ
Table V = List (Bytes × V)

module _ {ℓ} {V : Type ℓ} where
  unfoldable pub find : Bytes → Table V → Option V
  find k [] = none
  find k ((j, v) ∷ m) = if bytes_eq j k then some v else find k m

  -- m[k] = v, and a write through an iterator at `k`
  unfoldable pub assign : Bytes → V → Table V → Table V
  assign k v [] = (k, v) ∷ []
  assign k v ((j, w) ∷ m) =
      let rest = assign k v m in if bytes_eq j k then (k, v) ∷ m else (j, w) ∷ rest

  unfoldable pub erase : Bytes → Table V → Table V
  erase k [] = []
  erase k ((j, w) ∷ m) = let rest = erase k m in if bytes_eq j k then rest else (j, w) ∷ rest

-- whether `find` returned an entry: `it != m.end()`
abbrev pub is_some {ℓ} : {V : Type ℓ} → Option V → Bool
is_some none = false
is_some (some v) = true

-- No key has two entries.
abbrev pub IsTable {ℓ} : {V : Type ℓ} → Table V → Type ℓ
IsTable [] = Unit
IsTable ((k, v) ∷ m) = (find k m ≡ none) × IsTable m
