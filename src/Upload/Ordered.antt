-- ===== src/Upload/Ordered.antt =====
-- Which directories a plan of src/lib/upload-paths.ts names, and in which order.
use mathlib.Core.List.Memᴰ
use r_shell.Prelude.{
  Bool-cases, List, Memᴰ, String, [], arith, count, count-append, eq_iff, false, in_set, in_set-Mem,
  inl, inr, refl, subst, sym, ◌↔◌, ◌∷◌, ◌≡◌, ◌≤◌, ◌⊎◌,
}
use r_shell.Upload.Plan.{add_directories, add_directory}

-- Each text occurs once at most.
abbrev pub IsOnce : List String → Type 0
IsOnce xs = (x : String) → count x xs ≤ 1

absent_count : (x : String) (xs : List String) → in_set x xs ≡ false → count x xs ≡ 0
absent_count x [] h = refl
absent_count x (y ∷ ys) h = ground (arith, absent_count x ys, h)

pub add_directory-IsOnce : (d : String) (ds : List String) → IsOnce ds → IsOnce (add_directory d ds)
unfolding add_directory
add_directory-IsOnce d ds h x = elim (Bool-cases (in_set d ds)) [
  | inl e ↦ rw (add_directory, e) (h x)
  | inr e ↦
      rw (add_directory, e)
        (ground (arith, h x, count-append x ds (d ∷ []), absent_count d ds e, eq_iff d x))
]

pub add_directory-Mem :
    (x d : String) (ds : List String) → Memᴰ x (add_directory d ds) ↔ (Memᴰ x ds ⊎ (x ≡ d))
unfolding add_directory
add_directory-Mem x d ds = elim (Bool-cases (in_set d ds)) [
  | inl e ↦
      rw (add_directory, e)
        (
          λ m. inl m,
          λ h. elim h [ inl m ↦ m | inr k ↦ subst (λ y. Memᴰ y ds) (sym k) (in_set-Mem d ds e) ],
        )
  | inr e ↦
      rw (add_directory, e)
        (
          λ m. elim (Memᴰ.append_cases ds m) [
            | inl k ↦ inl k
            | inr k ↦ inr (Memᴰ.eq_of_singleton k)
          ],
          λ h. elim h [
            | inl m ↦ Memᴰ.append_left (d ∷ []) m
            | inr k ↦ Memᴰ.append_right ds (Memᴰ.head k)
          ],
        )
]

pub add_directories-IsOnce :
    (ds all_before : List String) → IsOnce all_before → IsOnce (add_directories ds all_before)
unfolding add_directories
add_directories-IsOnce [] all_before h = h
add_directories-IsOnce (d ∷ ds) all_before h =
    add_directories-IsOnce ds (add_directory d all_before) (add_directory-IsOnce d all_before h)

pub add_directories-Mem :
    (x : String) (ds all_before : List String)
    → Memᴰ x (add_directories ds all_before) ↔ (Memᴰ x all_before ⊎ Memᴰ x ds)
unfolding add_directories
add_directories-Mem x [] all_before = (λ m. inl m, λ h. elim h [ inl m ↦ m | inr k ↦ elim k [ ] ])
add_directories-Mem x (d ∷ ds) all_before =
    let later = add_directories-Mem x ds (add_directory d all_before) in
    let here = add_directory-Mem x d all_before in
    (
      λ m. elim (later.0 m) [
        | inl k ↦ elim (here.0 k) [ inl l ↦ inl l | inr l ↦ inr (Memᴰ.head l) ]
        | inr k ↦ inr (Memᴰ.tail k)
      ],
      λ h. elim h [
        | inl m ↦ later.1 (inl (here.1 (inl m)))
        | inr m ↦ elim (Memᴰ.cases_cons m) [
          | inl k ↦ later.1 (inl (here.1 (inr k)))
          | inr k ↦ later.1 (inr k)
        ]
      ],
    )
