-- ===== src/Prelude/Sort.antt =====
-- `Array.prototype.sort`, which is stable, as sorting by insertion.
use mathlib.Core.Bool.{Bool, true, false}
use mathlib.Core.List.{List, [], ◌∷◌, Memᴰ}
use mathlib.Core.List.Memᴰ
use mathlib.Core.Path.{◌≡◌, sym, subst}
use native.Mathlib.Omega.{arith}
use Prim.Native.Nat.{ℕ, ◌≤◌}
use mathlib.Core.Logic.{◌⊎◌, inl, inr}
use r_shell.Prelude.Tests.{if◌then◌else◌, Bool-cases}

module _ {ℓ} {A : Type ℓ} (before : A → A → Bool) where
  unfoldable pub place_sorted : A → List A → List A
  place_sorted x [] = x ∷ []
  place_sorted x (y ∷ ys) =
      let later = place_sorted x ys in if before y x then y ∷ later else x ∷ y ∷ ys

  -- `[...items].sort(…)`, which is stable.
  unfoldable pub sorted : List A → List A
  unfolding place_sorted
  sorted [] = []
  sorted (x ∷ xs) = place_sorted x (sorted xs)

  pub place_sorted-Mem : (x y : A) (ys : List A) → Memᴰ x (place_sorted y ys) → (x ≡ y) ⊎ Memᴰ x ys
  unfolding place_sorted
  place_sorted-Mem x y [] (Memᴰ.head e) = inl e
  place_sorted-Mem x y [] (Memᴰ.tail m) = elim m [ ]
  place_sorted-Mem x y (z ∷ zs) m = elim (Bool-cases (before z y)) [
    | inl e ↦ elim (rw (place_sorted, e) at m) [
      | Memᴰ.head k ↦ inr (Memᴰ.head k)
      | Memᴰ.tail t ↦ elim (place_sorted-Mem x y zs t) [ inl k ↦ inl k | inr k ↦ inr (Memᴰ.tail k) ]
    ]
    | inr e ↦ elim (rw (place_sorted, e) at m) [ Memᴰ.head k ↦ inl k | Memᴰ.tail t ↦ inr t ]
  ]

  pub sorted-Mem : (x : A) (xs : List A) → Memᴰ x (sorted xs) → Memᴰ x xs
  unfolding sorted
  sorted-Mem x [] m = elim m [ ]
  sorted-Mem x (y ∷ ys) m = elim (place_sorted-Mem x y (sorted ys) m) [
    | inl e ↦ Memᴰ.head e
    | inr t ↦ Memᴰ.tail (sorted-Mem x ys t)
  ]

  place_sorted-kept : (x y : A) (ys : List A) → (x ≡ y) ⊎ Memᴰ x ys → Memᴰ x (place_sorted y ys)
  unfolding place_sorted
  place_sorted-kept x y [] (inl e) = Memᴰ.head e
  place_sorted-kept x y [] (inr m) = elim m [ ]
  place_sorted-kept x y (z ∷ zs) h = elim (Bool-cases (before z y)) [
    | inl e ↦
        rw (place_sorted, e)
          (elim h [
            | inl k ↦ Memᴰ.tail (place_sorted-kept x y zs (inl k))
            | inr m ↦ elim (Memᴰ.cases_cons m) [
              | inl k ↦ Memᴰ.head k
              | inr t ↦ Memᴰ.tail (place_sorted-kept x y zs (inr t))
            ]
          ])
    | inr e ↦ rw (place_sorted, e) (elim h [ inl k ↦ Memᴰ.head k | inr m ↦ Memᴰ.tail m ])
  ]

  -- Sorting keeps each entry.
  pub Mem-sorted : (x : A) (xs : List A) → Memᴰ x xs → Memᴰ x (sorted xs)
  unfolding sorted
  Mem-sorted x [] m = elim m [ ]
  Mem-sorted x (y ∷ ys) (Memᴰ.head e) = place_sorted-kept x y (sorted ys) (inl e)
  Mem-sorted x (y ∷ ys) (Memᴰ.tail m) = place_sorted-kept x y (sorted ys) (inr (Mem-sorted x ys m))

-- The measure does not go down along the list.
pub data Ascending {ℓ} {A : Type ℓ} (measure : A → ℕ) : List A → Type ℓ where
  none_left : Ascending measure []
  least :
      {x : A} {xs : List A}
      → ((y : A) → Memᴰ y xs → measure x ≤ measure y)
      → Ascending measure xs
      → Ascending measure (x ∷ xs)

module _ {ℓ} {A : Type ℓ} (before : A → A → Bool) (measure : A → ℕ) where
  place_sorted-Ascending :
      ((a b : A) → before a b ≡ true → measure a ≤ measure b)
      → ((a b : A) → before a b ≡ false → measure b ≤ measure a)
      → (x : A) (ys : List A) → Ascending measure ys
      → Ascending measure (place_sorted before x ys)
  unfolding place_sorted
  place_sorted-Ascending up down x [] a = least (λ y m. elim m [ ]) none_left
  place_sorted-Ascending up down x (y ∷ ys) (least le a) = elim (Bool-cases (before y x)) [
    | inl e ↦
        rw (place_sorted, e)
          (least
            (λ z m. elim (place_sorted-Mem before z x ys m) [
              | inl k ↦ subst (λ w. measure y ≤ measure w) (sym k) (up y x e)
              | inr t ↦ le z t
            ])
            (place_sorted-Ascending up down x ys a))
    | inr e ↦
        rw (place_sorted, e)
          (least
            (λ z m. elim (Memᴰ.cases_cons m) [
              | inl k ↦ subst (λ w. measure x ≤ measure w) (sym k) (down y x e)
              | inr t ↦ omega (arith, down y x e, le z t)
            ])
            (least le a))
  ]

  -- Where the comparison agrees with a measure, sorting puts the entries in its order.
  pub sorted-Ascending :
      ((a b : A) → before a b ≡ true → measure a ≤ measure b)
      → ((a b : A) → before a b ≡ false → measure b ≤ measure a)
      → (xs : List A) → Ascending measure (sorted before xs)
  unfolding sorted
  sorted-Ascending up down [] = none_left
  sorted-Ascending up down (x ∷ xs) =
      place_sorted-Ascending up down x (sorted before xs) (sorted-Ascending up down xs)
