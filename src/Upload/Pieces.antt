-- ===== src/Upload/Pieces.antt =====
-- The pieces of a path of src/lib/upload-paths.ts have no slash and no backslash.
use mathlib.Core.List.Memᴰ
use Prim.Native.Char.{Char}
use Prim.Native.String.append
use r_shell.Prelude.{
  Bool-cases, List, Memᴰ, String, [], ap, concat, false, filter-Mem, inl, inr, is_false_of, neither,
  not, refl, subst, sym, ◌==◌, ◌||◌, ◌∙◌, ◌∷◌, ◌≡◌,
}
use r_shell.Upload.Cut.{split_slash-some}
use r_shell.Upload.Paths.{
  forward_slashes, has_backslash, is_char, onto_first, segments, split_slash,
}

pub has_backslash-concat :
    (a b : String) → has_backslash (concat a b) ≡ (has_backslash a || has_backslash b)
unfolding has_backslash
has_backslash-concat String.[] b = ap has_backslash (append.nil b)
has_backslash-concat (String.◌∷◌ c a) b =
    ap has_backslash (append.cons c a b) ∙ elim (Bool-cases (is_char "\\" c)) [
      | inl e ↦ rw (has_backslash, e) refl
      | inr e ↦ rw (has_backslash, e) (has_backslash-concat a b)
    ]

has_backslash-forward : (s : String) → has_backslash (forward_slashes s) ≡ false
unfolding has_backslash forward_slashes
has_backslash-forward String.[] = refl
has_backslash-forward (String.◌∷◌ c s) = elim (Bool-cases (is_char "\\" c)) [
  | inl e ↦ rw (forward_slashes, e) (slash_only (forward_slashes s) (has_backslash-forward s))
  | inr e ↦ rw (forward_slashes, e, has_backslash, e) (has_backslash-forward s)
]
  where
    slash_only : (t : String) → has_backslash t ≡ false → has_backslash (String.◌∷◌ "/" t) ≡ false
    slash_only t h = h

pub forward_slashes-same : (s : String) → has_backslash s ≡ false → forward_slashes s ≡ s
unfolding has_backslash forward_slashes
forward_slashes-same String.[] h = refl
forward_slashes-same (String.◌∷◌ c s) h =
    let both = neither (is_char "\\" c) (has_backslash s) h in
    rw (forward_slashes, both.0) (ap (String.◌∷◌ c) (forward_slashes-same s both.1))

-- No slash and no backslash.
pub record IsPiece (p : String) : Type 0 where
  pub whole : split_slash p ≡ p ∷ []
  pub forward : has_backslash p ≡ false

IsPiece-cons :
    (c : Char) (q : String)
    → is_char "/" c ≡ false
    → is_char "\\" c ≡ false
    → IsPiece q
    → IsPiece (String.◌∷◌ c q)
unfolding split_slash has_backslash onto_first
IsPiece-cons c q e f w = record {
  whole = rw (split_slash, e) (ap (onto_first c) w.whole);
  forward = rw (has_backslash, f) w.forward;
}

pub IsPiece-empty : IsPiece ""
unfolding split_slash has_backslash
IsPiece-empty = record { whole = refl; forward = refl }

-- The pieces of a path without backslashes.
split_slash-IsPiece : (s p : String) → has_backslash s ≡ false → Memᴰ p (split_slash s) → IsPiece p
unfolding split_slash has_backslash onto_first
split_slash-IsPiece String.[] p h m =
    subst (λ q. IsPiece q) (sym (Memᴰ.eq_of_singleton m)) IsPiece-empty
split_slash-IsPiece (String.◌∷◌ c s) p h m =
    let both = neither (is_char "\\" c) (has_backslash s) h in
    let some_piece = split_slash-some s in
    let here = sym some_piece.1.1 in
    elim (Bool-cases (is_char "/" c)) [
      | inl e ↦ elim (Memᴰ.cases_cons (rw (split_slash, e) at m)) [
        | inl k ↦ subst (λ q. IsPiece q) (sym k) IsPiece-empty
        | inr t ↦ split_slash-IsPiece s p both.1 t
      ]
      | inr e ↦ elim (Memᴰ.cases_cons (rw (split_slash, e, some_piece.1.1, onto_first) at m)) [
        | inl k ↦
            subst (λ q. IsPiece q) (sym k)
              (IsPiece-cons c some_piece.0 e both.0 (
                split_slash-IsPiece s some_piece.0 both.1
                  (subst (λ l. Memᴰ some_piece.0 l) here (Memᴰ.head refl))))
        | inr t ↦ split_slash-IsPiece s p both.1 (subst (λ l. Memᴰ p l) here (Memᴰ.tail t))
      ]
    ]

-- A list of pieces, none of them empty.
pub record ArePieces (ps : List String) : Type 0 where
  pub piece : (p : String) → Memᴰ p ps → IsPiece p
  pub filled : (p : String) → Memᴰ p ps → (p == "") ≡ false

pub pieces_below : {p : String} {ps : List String} → ArePieces (p ∷ ps) → ArePieces ps
pieces_below h = record {
  piece = λ q m. h.piece q (Memᴰ.tail m);
  filled = λ q m. h.filled q (Memᴰ.tail m);
}

pub segments-ArePieces : (s : String) → ArePieces (segments (forward_slashes s))
unfolding segments
segments-ArePieces s =
    let filled = λ (p : String). not (p == "") in
    record {
      piece = λ p m.
          split_slash-IsPiece (forward_slashes s) p (has_backslash-forward s)
            (filter-Mem filled p (split_slash (forward_slashes s)) m).0;
      filled =
          λ p m. is_false_of (p == "") (filter-Mem filled p (split_slash (forward_slashes s)) m).1;
    }
