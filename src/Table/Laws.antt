-- ===== src/Table/Laws.antt =====
-- The laws of std::unordered_map's find, operator[] and erase.
use mathlib.Core.Path.{subst}
use redi_craft.Prelude.{
  suc, ◌+◌, ◌≡◌, refl, inl, inr, none, some, [], ◌∷◌, arith, length, if◌then◌else◌, Bool-cases,
  if_both, All, Bytes, bytes_eq, bytes_eq_refl, key_laws, bytes_eq_iff,
}
use redi_craft.Table.{Table, find, assign, erase, is_some, IsTable}

module _ {ℓ} {V : Type ℓ} where
  pub find-assign :
      (k : Bytes) (v : V) (m : Table V) (j : Bytes)
      → find j (assign k v m) ≡ (if bytes_eq k j then some v else find j m)
  unfolding find assign
  find-assign k v [] j = refl
  find-assign k v ((i, w) ∷ m) j = grind (key_laws, find-assign k v m j)

  -- what was assigned is found
  pub find_assigned : (k : Bytes) (v : V) (m : Table V) → find k (assign k v m) ≡ some v
  find_assigned k v m = ground (arith, find-assign k v m k, bytes_eq_refl k)

  pub find-erase :
      (k : Bytes) (m : Table V) (j : Bytes)
      → find j (erase k m) ≡ (if bytes_eq k j then none else find j m)
  unfolding find erase
  find-erase k [] j = ground arith
  find-erase k ((i, w) ∷ m) j = grind (key_laws, find-erase k m j)

  pub assign-IsTable : (k : Bytes) (v : V) (m : Table V) → IsTable m → IsTable (assign k v m)
  unfolding assign
  assign-IsTable k v [] h = (unfold find in refl, tt)
  assign-IsTable k v ((i, w) ∷ m) (fresh, h) =
      grind (key_laws, find-assign k v m i, assign-IsTable k v m h)

  pub erase-IsTable : (k : Bytes) (m : Table V) → IsTable m → IsTable (erase k m)
  unfolding erase
  erase-IsTable k [] h = tt
  erase-IsTable k ((i, w) ∷ m) (fresh, h) = ground (arith, find-erase k m i, erase-IsTable k m h)

  -- operator[] adds an entry exactly if the key had none.
  pub length-assign :
      (k : Bytes) (v : V) (m : Table V)
      → length (assign k v m) ≡ (if is_some (find k m) then length m else suc (length m))
  unfolding assign find
  length-assign k v [] = refl
  length-assign k v ((i, w) ∷ m) = ground (arith, length-assign k v m)

  erase_absent : (k : Bytes) (m : Table V) → find k m ≡ none → erase k m ≡ m
  unfolding erase find
  erase_absent k [] h = refl
  erase_absent k ((i, w) ∷ m) h = ground (arith, erase_absent k m)

  pub length-erase :
      (k : Bytes) (m : Table V)
      → IsTable m
      → length (erase k m) + (if is_some (find k m) then 1 else 0) ≡ length m
  unfolding erase find
  length-erase k [] h = omega arith
  length-erase k ((i, w) ∷ m) (fresh, h) = grind (key_laws, erase_absent k m, length-erase k m h)

-- A predicate at every entry.
module _ {ℓ} {V : Type ℓ} (P : Bytes → V → Type 0) where
  abbrev pub Entries : Table V → Type 0
  Entries = All (λ (e : Bytes × V). P e.0 e.1)

  pub find-Entries : (k : Bytes) (m : Table V) (v : V) → Entries m → find k m ≡ some v → P k v
  unfolding find
  find-Entries k [] v h e = absurd (cc e)
  find-Entries k ((i, w) ∷ m) v (p, h) e = elim (Bool-cases (bytes_eq i k)) [
    | inl same ↦
        let e' : some w ≡ some v = rw same at e in
        let q : w ≡ v = cc e' in subst (P k) q (subst (λ j. P j w) ((bytes_eq_iff i k).0 same) p)
    | inr other ↦ find-Entries k m v h (rw other at e)
  ]

  pub assign-Entries :
      (k : Bytes) (v : V) (m : Table V) → P k v → Entries m → Entries (assign k v m)
  unfolding assign
  assign-Entries k v [] p h = (p, tt)
  assign-Entries k v ((i, w) ∷ m) p (q, h) =
      if_both Entries (bytes_eq i k) ((k, v) ∷ m) _ (λ _. (p, h)) (q, assign-Entries k v m p h)

  pub erase-Entries : (k : Bytes) (m : Table V) → Entries m → Entries (erase k m)
  unfolding erase
  erase-Entries k [] h = tt
  erase-Entries k ((i, w) ∷ m) (q, h) =
      if_both Entries (bytes_eq i k) (erase k m) _ (λ _. erase-Entries k m h)
        (q, erase-Entries k m h)
