-- ===== src/Prelude/Sets.antt =====
-- A `Set` of texts, as a list without its order.
use Prim.Native.String.{String}
use mathlib.Core.Bool.{Bool, false, ◌||◌}
use mathlib.Core.List.{List, [], ◌∷◌, ◌++◌, Memᴰ}
use text.Mathlib.Text.{◌==◌}
use native.Mathlib.Omega.{arith}
use Prim.Native.Nat.{ℕ, ◌+◌}
use mathlib.Core.Path.{◌≡◌, refl, sym}
use mathlib.Core.Bool.{true}
use mathlib.Core.Logic.{inl, inr}
use text.Mathlib.TextEquality.{eq_iff}
use r_shell.Prelude.Tests.{if◌then◌else◌, Bool-cases, impossible}

-- `set.has(id)`
abbrev pub in_set : String → List String → Bool
in_set id [] = false
in_set id (x ∷ xs) = x == id || in_set id xs

-- `set.delete(id)`
abbrev pub out_of_set : String → List String → List String
out_of_set id [] = []
out_of_set id (x ∷ xs) = if x == id then out_of_set id xs else x ∷ out_of_set id xs

-- How often a text occurs in a list.
abbrev pub count : String → List String → ℕ
count g [] = 0
count g (x ∷ xs) = (if x == g then 1 else 0) + count g xs

pub count-append : (g : String) (xs ys : List String) → count g (xs ++ ys) ≡ count g xs + count g ys
count-append g [] ys = omega arith
count-append g (x ∷ xs) ys = omega (arith, count-append g xs ys)

pub in_set-Mem : (x : String) (xs : List String) → in_set x xs ≡ true → Memᴰ x xs
in_set-Mem x [] h = impossible h
in_set-Mem x (y ∷ ys) h = elim (Bool-cases (y == x)) [
  | inl e ↦ Memᴰ.head (sym ((eq_iff y x).0 e))
  | inr e ↦ Memᴰ.tail (in_set-Mem x ys (rw (in_set, e) at h))
]

pub Mem-in_set : (x : String) (xs : List String) → Memᴰ x xs → in_set x xs ≡ true
Mem-in_set x [] m = elim m [ ]
Mem-in_set x (y ∷ ys) (Memᴰ.head e) = rw (in_set, (eq_iff y x).1 (sym e)) refl
Mem-in_set x (y ∷ ys) (Memᴰ.tail m) = ground (arith, Mem-in_set x ys m)
