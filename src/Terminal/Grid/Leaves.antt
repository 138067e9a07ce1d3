-- ===== src/Terminal/Grid/Leaves.antt =====
-- Lists of group ids: how often an id occurs, and what splitting or removing a leaf does to them.
use mathlib.Core.List.{append_assoc}
use r_shell.Prelude.{
  Bool-cases, List, String, [], ap, arith, count, eq_iff, head?, if◌then◌else◌, inl, inr, none,
  refl, some, sym, ◌++◌, ◌==◌, ◌∷◌, ◌≡◌, ◌≤◌,
}

-- The ids other than `g`, in their order.
abbrev pub without : String → List String → List String
without g [] = []
without g (x ∷ xs) = if x == g then without g xs else x ∷ without g xs

pub without-append :
    (g : String) (xs ys : List String) → without g (xs ++ ys) ≡ without g xs ++ without g ys
without-append g [] ys = refl
without-append g (x ∷ xs) ys = ground (arith, without-append g xs ys)

pub count-without :
    (g j : String) (xs : List String) → count j (without g xs) ≡ (if g == j then 0 else count j xs)
count-without g j [] = ground arith
count-without g j (x ∷ xs) =
    ground (arith, eq_iff g j, eq_iff x g, eq_iff x j, count-without g j xs)

pub without-eq_self : (g : String) (xs : List String) → count g xs ≡ 0 → without g xs ≡ xs
without-eq_self g [] h = refl
without-eq_self g (x ∷ xs) h = ground (arith, without-eq_self g xs)

-- Each `g` gives way to the ids `ys`.
abbrev pub expand : String → List String → List String → List String
expand g ys [] = []
expand g ys (x ∷ xs) = if x == g then ys ++ expand g ys xs else x ∷ expand g ys xs

pub expand-append :
    (g : String) (zs xs ys : List String)
    → expand g zs (xs ++ ys) ≡ expand g zs xs ++ expand g zs ys
expand-append g zs [] ys = refl
expand-append g zs (x ∷ xs) ys = elim (Bool-cases (x == g)) [
  | inl e ↦ rw (e, expand-append g zs xs ys) (sym (append_assoc zs _ _))
  | inr e ↦ rw e (ap (x ∷◌) (expand-append g zs xs ys))
]

pub count-head? : (g : String) (xs : List String) → head? xs ≡ some g → 1 ≤ count g xs
count-head? g [] h = cc
count-head? g (x ∷ xs) h = ground (arith, eq_iff x g)

pub count-head?-none : (g : String) (xs : List String) → head? xs ≡ none → count g xs ≡ 0
count-head?-none g [] h = refl
count-head?-none g (x ∷ xs) h = cc
