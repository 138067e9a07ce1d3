-- ===== src/Dict/Keys.antt =====
-- The keys of an object: each occurs once.
use r_shell.Prelude.{
  Bool-cases, String, [], ap, arith, eq_iff, eq_refl, false, head?, if◌then◌else◌, inl, inr, length,
  none, refl, some, suc, true, ℕ, ◌+◌, ◌<◌, ◌==◌, ◌∷◌, ◌≡◌, ◌≤◌,
}
use r_shell.Dict.{Dict, erase, has, insert, keys, lookup, map_values, place, replace}

module _ {ℓ} {V : Type ℓ} where
  abbrev pub count_key : String → Dict V → ℕ
  count_key k [] = 0
  count_key k ((j, v) ∷ m) = (if j == k then 1 else 0) + count_key k m

  -- An object never holds a property twice.
  abbrev pub IsObject : Dict V → Type 0
  IsObject m = (k : String) → count_key k m ≤ 1

  count_key-lookup-none : (k : String) (m : Dict V) → lookup k m ≡ none → count_key k m ≡ 0
  unfolding lookup
  count_key-lookup-none k [] h = refl
  count_key-lookup-none k ((j, v) ∷ m) h = ground (arith, count_key-lookup-none k m)

  count_key-replace :
      (k j : String) (v : V) (m : Dict V) → count_key j (replace k v m) ≡ count_key j m
  unfolding replace
  count_key-replace k j v [] = refl
  count_key-replace k j v ((i, w) ∷ m) = ground (arith, eq_iff i k, count_key-replace k j v m)

  count_key-place :
      (k j : String) (v : V) (m : Dict V)
      → count_key j (place k v m) ≡ (if k == j then 1 else 0) + count_key j m
  unfolding place
  count_key-place k j v [] = refl
  count_key-place k j v ((i, w) ∷ m) = ground (arith, count_key-place k j v m)

  pub insert-IsObject : (k : String) (v : V) (m : Dict V) → IsObject m → IsObject (insert k v m)
  unfolding insert
  insert-IsObject k v m h j = ground (
    arith,
    eq_iff k j,
    h j,
    count_key-replace k j v m,
    count_key-place k j v m,
    count_key-lookup-none k m,
  )

  count_key-erase-le : (k j : String) (m : Dict V) → count_key j (erase k m) ≤ count_key j m
  unfolding erase
  count_key-erase-le k j [] = omega arith
  count_key-erase-le k j ((i, w) ∷ m) = ground (arith, count_key-erase-le k j m)

  pub erase-IsObject : (k : String) (m : Dict V) → IsObject m → IsObject (erase k m)
  erase-IsObject k m h j = omega (arith, h j, count_key-erase-le k j m)

  pub count_key-eq_zero : (k : String) (m : Dict V) → count_key k m ≡ 0 → lookup k m ≡ none
  unfolding lookup
  count_key-eq_zero k [] h = refl
  count_key-eq_zero k ((j, v) ∷ m) h = ground (arith, count_key-eq_zero k m)

  -- An object with two properties has one that is not `k`.
  pub other_key :
      (k : String) (m : Dict V)
      → IsObject m
      → 1 < length m
      → (j : String) × (v : V) × ((k == j) ≡ false) × (lookup j m ≡ some v)
  unfolding lookup
  other_key k [] o h = absurd (omega arith)
  other_key k (x ∷ []) o h = absurd (omega arith)
  other_key k ((a, v) ∷ (b, w) ∷ m) o h = elim (Bool-cases (k == a)) [
    | inl first ↦ elim (Bool-cases (a == b)) [
      | inl same ↦ absurd (ground (arith, o a, eq_iff a b, eq_refl a))
      | inr other ↦
          (b, w, ground (arith, eq_iff k a, eq_iff a b, eq_iff k b), ground (arith, eq_refl b))
    ]
    | inr other ↦ (a, v, other, ground (arith, eq_refl a))
  ]

  -- The first key that `Object.keys` lists is a key of the object.
  pub has-head? : (m : Dict V) (k : String) → head? (keys m) ≡ some k → has k m ≡ true
  unfolding lookup
  has-head? [] k h = cc
  has-head? ((j, v) ∷ m) k h = ground (arith, eq_iff j k)

  pub length-keys : (m : Dict V) → length (keys m) ≡ length m
  length-keys [] = refl
  length-keys ((k, v) ∷ m) = ap suc (length-keys m)

  -- Writing the only property there is gives an object with that property alone.
  pub insert-single :
      (k : String) (v : V) (m : Dict V) {w : V}
      → length m ≤ 1
      → lookup k m ≡ some w
      → insert k v m ≡ insert k v []
  unfolding insert lookup replace place
  insert-single k v [] h e = cc
  insert-single k v ((j, u) ∷ []) h e = ground arith
  insert-single k v (a ∷ b ∷ m) h e = absurd (omega arith)

pub count_key-map_values {ℓ κ} :
    {V : Type ℓ} {W : Type κ} (f : V → W) (k : String) (m : Dict V)
    → count_key k (map_values f m) ≡ count_key k m
unfolding map_values
count_key-map_values f k [] = refl
count_key-map_values f k ((j, v) ∷ m) =
    ap ((if j == k then 1 else 0) +◌) (count_key-map_values f k m)
