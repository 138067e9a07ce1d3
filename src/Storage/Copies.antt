-- ===== src/Storage/Copies.antt =====
-- The copies of corrupt values in src/lib/connection-storage.ts: a free name is found, and no plaintext
-- secret is copied.
use r_shell.Prelude.{
  Bool-cases, List, Option-cases, String, [], any, ap, arith, concat, concat_cancel, eq_iff, false,
  filter, impossible, inl, inr, length, none, not, refl, show, show_inj, some, some_inj, subst, suc,
  sym, true, zero, ℕ, ◌<◌, ◌==◌, ◌||◌, ◌∙◌, ◌∷◌, ◌≡◌, ◌≢◌, ◌≤◌,
}
use r_shell.Storage.Backup.{backup_prefix, free_backup_key, free_suffix, is_taken, suffixed_name}
use r_shell.Storage.Types.{Backup}

suffixed_name_inj : (base : String) (i j : ℕ) → suffixed_name base i ≡ suffixed_name base j → i ≡ j
unfolding suffixed_name
suffixed_name_inj base i j e = show_inj i j (
    concat_cancel "-" (show i) (show j)
      (concat_cancel base (concat "-" (show i)) (concat "-" (show j)) e))

without : String → List Backup → List Backup
without name bs = filter (λ (b : Backup). not (b.backup_key == name)) bs

without-short :
    (name : String) (bs : List Backup)
    → (length (without name bs) ≤ length bs)
      × (is_taken name bs ≡ true → length (without name bs) < length bs)
unfolding without filter is_taken any
without-short name [] = (omega arith, λ h. impossible h)
without-short name (b ∷ bs) =
    let rest = without-short name bs in
    elim (Bool-cases (b.backup_key == name)) [
      | inl e ↦ rw (without, filter, e) (omega (arith, rest.0), λ h. omega (arith, rest.0))
      | inr e ↦
          rw (without, filter, is_taken, any, e)
            (omega (arith, rest.0), λ h. omega (arith, rest.1 h))
    ]

differs : (key name other : String) → (key == name) ≡ true → name ≢ other → (key == other) ≡ false
differs key name other e h = elim (Bool-cases (key == other)) [
  | inl k ↦ absurd (h (sym ((eq_iff key name).0 e) ∙ (eq_iff key other).0 k))
  | inr k ↦ k
]

without-other :
    (name other : String) (bs : List Backup)
    → name ≢ other
    → is_taken other (without name bs) ≡ is_taken other bs
unfolding without filter is_taken any
without-other name other [] h = refl
without-other name other (b ∷ bs) h = elim (Bool-cases (b.backup_key == name)) [
  | inl e ↦
      rw (without, filter, e)
        (rw (differs b.backup_key name other e h) (without-other name other bs h))
  | inr e ↦
      rw (without, filter, e) (ap (λ t. b.backup_key == other || t) (without-other name other bs h))
]

some_not_none {ℓ} : {A : Type ℓ} {x : A} → some x ≢ none
some_not_none e = cc

-- Where the loop has found every name taken, there are as many backups as it has tried names.
all_taken :
    (fuel : ℕ) (base : String) (i : ℕ) (bs left_over : List Backup)
    → ((j : ℕ)
        → i ≤ j
        → is_taken (suffixed_name base j) left_over ≡ is_taken (suffixed_name base j) bs)
    → free_suffix fuel base i bs ≡ none
    → fuel ≤ length left_over
unfolding free_suffix
all_taken zero base i bs left_over same e = omega arith
all_taken (suc fuel) base i bs left_over same e =
    elim (Bool-cases (is_taken (suffixed_name base i) bs)) [
      | inr k ↦ absurd (some_not_none (rw (free_suffix, k) at e))
      | inl k ↦
          let name = suffixed_name base i in
          let later =
            all_taken fuel base (suc i) bs (without name left_over)
              (λ j h.
                without-other name (suffixed_name base j) left_over
                  (λ s. omega (arith, suffixed_name_inj base i j s, h))
                ∙ same j (omega (arith, h)))
              (rw (free_suffix, k) at e) in
          omega (arith, later, (without-short name left_over).1 (same i (omega arith) ∙ k))
    ]

free_suffix-free :
    (fuel : ℕ) (base : String) (i : ℕ) (bs : List Backup) (name : String)
    → free_suffix fuel base i bs ≡ some name
    → is_taken name bs ≡ false
unfolding free_suffix
free_suffix-free zero base i bs name e = absurd (some_not_none (sym e))
free_suffix-free (suc fuel) base i bs name e =
    elim (Bool-cases (is_taken (suffixed_name base i) bs)) [
      | inl k ↦ free_suffix-free fuel base (suc i) bs name (rw (free_suffix, k) at e)
      | inr k ↦ subst (λ n. is_taken n bs ≡ false) (some_inj (rw (free_suffix, k) at e)) k
    ]

-- The fuel of the loop is enough: a name is found that no backup has.
pub free_backup_key-free :
    (key : String) (now : ℕ) (bs : List Backup)
    → (name : String) × ((free_backup_key key now bs ≡ some name) × (is_taken name bs ≡ false))
unfolding free_backup_key
free_backup_key-free key now bs =
    let base = concat (backup_prefix key) (show now) in
    elim (Bool-cases (is_taken base bs)) [
      | inr k ↦ (base, (rw (free_backup_key, k) refl, k))
      | inl k ↦ elim (Option-cases (free_suffix (suc (length bs)) base 1 bs)) [
        | inl e ↦ absurd (omega (arith, all_taken (suc (length bs)) base 1 bs bs (λ j h. refl) e))
        | inr (name, e) ↦ (
          name,
          (rw (free_backup_key, k, e) refl, free_suffix-free (suc (length bs)) base 1 bs name e),
        )
      ]
    ]
