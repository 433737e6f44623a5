-- ===== src/Prelude/HashMap.antt =====
-- `std::collections::HashMap` as an association list with unique keys: `get`, `insert`, `remove`
-- and `extend`. The order of the entries, which Rust leaves open, is that of insertion.
use tv.Prelude.{
  ◌≡◌, refl, true, false, Option, none, some, List, [], ◌∷◌, arith, Eq, or_else, if◌then◌else◌,
  Bool-cases, inl, inr,
}

abbrev pub HashMap {ℓ κ} : Type ℓ → Type κ → Type (ℓ ⊔ κ)
HashMap K V = List (K × V)

module _ {ℓ κ} {K : Type ℓ} {V : Type κ} ⦃e : Eq K⦄ where
  abbrev pub get : HashMap K V → K → Option V
  get [] k = none
  get ((j, v) ∷ m) k = elim (e.beq j k) [ true ↦ some v | false ↦ get m k ]

  abbrev pub insert : HashMap K V → K → V → HashMap K V
  insert [] k v = (k, v) ∷ []
  insert ((j, w) ∷ m) k v = elim (e.beq j k) [ true ↦ (j, v) ∷ m | false ↦ (j, w) ∷ insert m k v ]

  abbrev pub remove : HashMap K V → K → HashMap K V
  remove [] k = []
  remove ((j, w) ∷ m) k = elim (e.beq j k) [ true ↦ m | false ↦ (j, w) ∷ remove m k ]

  abbrev pub extend : HashMap K V → HashMap K V → HashMap K V
  extend m [] = m
  extend m ((k, v) ∷ rest) = extend (insert m k v) rest

  -- No key stands twice.
  abbrev pub IsUnique : HashMap K V → Type κ
  IsUnique [] = Unit
  IsUnique ((k, v) ∷ m) = (get m k ≡ none) × IsUnique m

  pub get-insert :
      (m : HashMap K V) (k j : K) (v : V)
      → get (insert m k v) j ≡ (if e.beq k j then some v else get m j)
  get-insert [] k j v = ground arith
  get-insert ((i, w) ∷ m) k j v =
      ground (arith, e.beq_iff i k, e.beq_iff i j, e.beq_iff k j, get-insert m k j v)

  pub get-extend :
      (m other : HashMap K V) (j : K)
      → IsUnique other
      → get (extend m other) j ≡ or_else (get other j) (get m j)
  get-extend m [] j u = refl
  get-extend m ((k, v) ∷ rest) j u =
      ground (arith, e.beq_iff k j, get-insert m k j v, get-extend (insert m k v) rest j u.1)

  pub get-remove :
      (m : HashMap K V) (k j : K)
      → IsUnique m
      → get (remove m k) j ≡ (if e.beq k j then none else get m j)
  get-remove [] k j u = ground arith
  get-remove ((i, w) ∷ m) k j u =
      ground (arith, e.beq_iff i k, e.beq_iff i j, e.beq_iff k j, get-remove m k j u.1)

  pub IsUnique-insert : (m : HashMap K V) (k : K) (v : V) → IsUnique m → IsUnique (insert m k v)
  IsUnique-insert [] k v u = (refl, tt)
  IsUnique-insert ((i, w) ∷ m) k v u = elim (Bool-cases (e.beq i k)) [
    | inl same ↦ rw (same, IsUnique) u
    | inr other ↦
        rw (other, IsUnique)
          (
            ground (arith, e.beq_iff k i, e.beq_iff i k, get-insert m k i v),
            IsUnique-insert m k v u.1,
          )
  ]

  pub IsUnique-remove : (m : HashMap K V) (k : K) → IsUnique m → IsUnique (remove m k)
  IsUnique-remove [] k u = tt
  IsUnique-remove ((i, w) ∷ m) k u = elim (Bool-cases (e.beq i k)) [
    | inl same ↦ rw (same, IsUnique) u.1
    | inr other ↦
        rw (other, IsUnique) (ground (arith, get-remove m k i u.1), IsUnique-remove m k u.1)
  ]
