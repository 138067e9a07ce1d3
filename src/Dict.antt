-- ===== src/Dict.antt =====
-- Plain objects used as maps, `Record<string, V>`: reads, writes, `delete`, and the order in which
-- `Object.keys`, `Object.values` and `Object.entries` list the properties. The language fixes that
-- order: keys that are array indices come first, by number, and the others in order of insertion.
pub mod Lookup
pub mod Keys
use r_shell.Prelude.{
  Bool, List, Option, String, [], false, if◌then◌else◌, is_some, ltb, none, read_digits, refl, show,
  some, true, ℕ, ◌-◌, ◌==◌, ◌^◌, ◌∷◌, ◌≡◌,
}

abbrev pub Dict {ℓ} : Type ℓ → Type ℓ
Dict V = List (String × V)

-- The number of an array index: its text is canonical, and it is below 2 ^ 32 - 1.
array_index : String → Option ℕ
array_index k =
    let n : ℕ = read_digits 0 k in
    if show n == k then if ltb n (2 ^ 32 - 1) then some n else none else none

-- `k` is listed before `j`, which is in the object already.
precedes : Option ℕ → Option ℕ → Bool
precedes (some a) (some b) = ltb a b
precedes (some a) none = true
precedes none j = false

module _ {ℓ} {V : Type ℓ} where
  -- `m[k]`, `none` for `undefined`
  unfoldable pub lookup : String → Dict V → Option V
  lookup k [] = none
  lookup k ((j, v) ∷ m) = if j == k then some v else lookup k m

  -- `k in m`
  abbrev pub has : String → Dict V → Bool
  has k m = is_some (lookup k m)

  replace : String → V → Dict V → Dict V
  replace k v [] = []
  replace k v ((j, w) ∷ m) = if j == k then (k, v) ∷ m else (j, w) ∷ replace k v m

  place : String → V → Dict V → Dict V
  unfolding precedes array_index
  place k v [] = (k, v) ∷ []
  place k v ((j, w) ∷ m) =
      if precedes (array_index k) (array_index j) then (k, v) ∷ (j, w) ∷ m else (j, w) ∷ place k v m

  -- `{ ...m, [k]: v }`: a key that is there keeps its place.
  unfoldable pub insert : String → V → Dict V → Dict V
  unfolding replace place
  insert k v m = if has k m then replace k v m else place k v m

  -- `delete m[k]`
  unfoldable pub erase : String → Dict V → Dict V
  erase k [] = []
  erase k ((j, v) ∷ m) = if j == k then erase k m else (j, v) ∷ erase k m

  -- `Object.keys(m)`
  abbrev pub keys : Dict V → List String
  keys [] = []
  keys ((k, v) ∷ m) = k ∷ keys m

  -- `Object.values(m)`
  abbrev pub values : Dict V → List V
  values [] = []
  values ((k, v) ∷ m) = v ∷ values m

-- `Object.fromEntries(Object.entries(m).map(([k, v]) => [k, f(v)]))`
unfoldable pub map_values {ℓ κ} : {V : Type ℓ} {W : Type κ} → (V → W) → Dict V → Dict W
map_values f [] = []
map_values f ((k, v) ∷ m) = (k, f v) ∷ map_values f m

order_example :
    keys {V = ℕ} (insert "b" 3 (insert "10" 2 (insert "2" 1 (insert "a" 0 []))))
    ≡ "2" ∷ "10" ∷ "a" ∷ "b" ∷ []
unfolding insert lookup replace place precedes array_index show read_digits
order_example = refl
