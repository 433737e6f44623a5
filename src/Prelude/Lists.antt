-- ===== src/Prelude/Lists.antt =====
-- Lists measured by native numbers, under the library's names, and predicates over them.
use Prim.Native.Nat.{ℕ, zero, suc, ◌+◌, ◌≤◌}
use mathlib.Core.Path.{◌≡◌, refl}
use mathlib.Core.Logic.{◌≢◌}
use mathlib.Core.Bool.{Bool, true, false, ◌&&◌, ◌||◌}
use mathlib.Core.List.{List, [], ◌∷◌, ◌++◌}
use native.Mathlib.Omega.{arith}
use mathlib.Core.Option.{Option, none, some}
use tv.Prelude.Tests.{Eq, or_else}

module _ {ℓ} {A : Type ℓ} where
  abbrev pub length : List A → ℕ
  length [] = 0
  length (x ∷ xs) = suc (length xs)

  pub length-append : (xs ys : List A) → length (xs ++ ys) ≡ length xs + length ys
  length-append [] ys = omega arith
  length-append (x ∷ xs) ys = omega (arith, length-append xs ys)

  -- `is_empty`
  abbrev pub is_nil : List A → Bool
  is_nil [] = true
  is_nil (x ∷ xs) = false

  abbrev pub take : ℕ → List A → List A
  take zero xs = []
  take (suc n) [] = []
  take (suc n) (x ∷ xs) = x ∷ take n xs

  abbrev pub drop : ℕ → List A → List A
  drop zero xs = xs
  drop (suc n) [] = []
  drop (suc n) (x ∷ xs) = drop n xs

  -- `Iterator::any` and `Iterator::all`.
  abbrev pub any : (A → Bool) → List A → Bool
  any p [] = false
  any p (x ∷ xs) = p x || any p xs

  abbrev pub all : (A → Bool) → List A → Bool
  all p [] = true
  all p (x ∷ xs) = p x && all p xs

  -- `Iterator::filter` by a Boolean test.
  abbrev pub keep : (A → Bool) → List A → List A
  keep p [] = []
  keep p (x ∷ xs) = elim (p x) [ true ↦ x ∷ keep p xs | false ↦ keep p xs ]

  -- `Iterator::find_map`
  abbrev pub find_map {κ} : {B : Type κ} → (A → Option B) → List A → Option B
  find_map f [] = none
  find_map f (x ∷ xs) = elim (f x) [ some b ↦ some b | none ↦ find_map f xs ]

  pub find_map-append {κ} :
      {B : Type κ} (f : A → Option B) (xs ys : List A)
      → find_map f (xs ++ ys) ≡ or_else (find_map f xs) (find_map f ys)
  find_map-append f [] ys = refl
  find_map-append f (x ∷ xs) ys = ground (arith, find_map-append f xs ys)

  -- A predicate on every element.
  abbrev pub All {κ} : (A → Type κ) → List A → Type κ
  All P [] = Unit
  All P (x ∷ xs) = P x × All P xs

module _ {ℓ} {A : Type ℓ} ⦃e : Eq A⦄ where
  -- `Vec::contains` and `HashSet::contains`.
  abbrev pub contains : List A → A → Bool
  contains [] a = false
  contains (x ∷ xs) a = e.beq x a || contains xs a

  abbrev pub Distinct : List A → Type 0
  Distinct [] = Unit
  Distinct (x ∷ xs) = (contains xs x ≡ false) × Distinct xs

  -- How often an element stands in a list.
  abbrev pub count : A → List A → ℕ
  count a [] = 0
  count a (x ∷ xs) = elim (e.beq x a) [ true ↦ suc (count a xs) | false ↦ count a xs ]

  pub count-contains : (xs : List A) (a : A) → contains xs a ≡ false → count a xs ≡ 0
  count-contains [] a h = refl
  count-contains (x ∷ xs) a h = ground (arith, count-contains xs a)

  pub count-append : (a : A) (xs ys : List A) → count a (xs ++ ys) ≡ count a xs + count a ys
  count-append a [] ys = omega arith
  count-append a (x ∷ xs) ys = ground (arith, count-append a xs ys)

  pub contains-append :
      (xs ys : List A) (a : A) → contains (xs ++ ys) a ≡ (contains xs a || contains ys a)
  contains-append [] ys a = refl
  contains-append (x ∷ xs) ys a = ground (arith, contains-append xs ys a)

  abbrev erase : A → List A → List A
  erase a [] = []
  erase a (x ∷ xs) = elim (e.beq x a) [ true ↦ xs | false ↦ x ∷ erase a xs ]

  length-erase :
      (a : A) (xs : List A) → contains xs a ≡ true → suc (length (erase a xs)) ≡ length xs
  length-erase a [] h = cc
  length-erase a (x ∷ xs) h = ground (arith, length-erase a xs)

  contains-erase :
      (a b : A) (xs : List A) → contains xs b ≡ true → a ≢ b → contains (erase a xs) b ≡ true
  contains-erase a b [] h ne = cc
  contains-erase a b (x ∷ xs) h ne =
      ground (arith, e.beq_iff x a, e.beq_iff x b, contains-erase a b xs)

  clash : (xs : List A) (a b : A) → contains xs a ≡ false → contains xs b ≡ true → a ≢ b
  clash xs a b p q same = cc

  -- Distinct elements of a list are no more than its length.
  pub length-le_of_contains :
      (xs ys : List A)
      → Distinct xs
      → ((a : A) → contains xs a ≡ true → contains ys a ≡ true)
      → length xs ≤ length ys
  length-le_of_contains [] ys d sub = omega arith
  length-le_of_contains (x ∷ xs) ys d sub =
      let here : contains ys x ≡ true = sub x (ground (arith, e.beq_iff x x)) in
      let rest =
        length-le_of_contains xs (erase x ys) d.1
          (λ a h. contains-erase x a ys (sub a (ground arith)) (clash xs x a d.0 (h))) in
      omega (arith, length-erase x ys here, rest)
