-- ===== src/Dict/Lookup.antt =====
-- Reading an object after a write, a `delete` or a map over its values.
use mathlib.Core.Option
use r_shell.Prelude.{
  Bool-cases, String, [], arith, eq_iff, false, if◌then◌else◌, inl, inr, none, refl, some, true,
  ◌==◌, ◌∷◌, ◌≡◌,
}
use r_shell.Dict.{Dict, erase, has, insert, lookup, map_values, place, replace}

module _ {ℓ} {V : Type ℓ} where
  lookup-replace :
      (k j : String) (v : V) (m : Dict V)
      → has k m ≡ true
      → lookup j (replace k v m) ≡ (if k == j then some v else lookup j m)
  unfolding lookup replace
  lookup-replace k j v [] h = ground arith
  lookup-replace k j v ((i, w) ∷ m) h =
      ground (arith, eq_iff k j, eq_iff i k, eq_iff i j, lookup-replace k j v m)

  lookup-place :
      (k j : String) (v : V) (m : Dict V)
      → has k m ≡ false
      → lookup j (place k v m) ≡ (if k == j then some v else lookup j m)
  unfolding lookup place
  lookup-place k j v [] h = refl
  lookup-place k j v ((i, w) ∷ m) h =
      ground (arith, eq_iff k j, eq_iff i k, eq_iff i j, lookup-place k j v m)

  pub lookup-insert :
      (k j : String) (v : V) (m : Dict V)
      → lookup j (insert k v m) ≡ (if k == j then some v else lookup j m)
  unfolding insert
  lookup-insert k j v m = elim (Bool-cases (has k m)) [
    | inl there ↦ rw there (lookup-replace k j v m there)
    | inr fresh ↦ rw fresh (lookup-place k j v m fresh)
  ]

  pub lookup-erase :
      (k j : String) (m : Dict V) → lookup j (erase k m) ≡ (if k == j then none else lookup j m)
  unfolding lookup erase
  lookup-erase k j [] = ground arith
  lookup-erase k j ((i, w) ∷ m) =
      ground (arith, eq_iff k j, eq_iff i k, eq_iff i j, lookup-erase k j m)

pub lookup-map_values {ℓ κ} :
    {V : Type ℓ} {W : Type κ} (f : V → W) (k : String) (m : Dict V)
    → lookup k (map_values f m) ≡ Option.map f (lookup k m)
unfolding lookup map_values
lookup-map_values f k [] = refl
lookup-map_values f k ((j, v) ∷ m) = elim (Bool-cases (j == k)) [
  | inl e ↦ rw e
  | inr e ↦ rw e (lookup-map_values f k m)
]

pub lookup-insert-erase {ℓ} :
    {V : Type ℓ} (k : String) (v : V) (m : Dict V) (j : String)
    → lookup j (insert k v (erase k m)) ≡ lookup j (insert k v m)
lookup-insert-erase k v m j = elim (Bool-cases (k == j)) [
  | inl e ↦ rw (lookup-insert k j v (erase k m), lookup-insert k j v m, e)
  | inr e ↦ rw (lookup-insert k j v (erase k m), lookup-insert k j v m, e, lookup-erase k j m, e)
]
