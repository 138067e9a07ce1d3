-- ===== src/Upload/Cut.antt =====
-- The pieces of a path of src/lib/upload-paths.ts, behind joins and without the slashes at its end.
use Prim.Native.Char.{Char}
use Prim.Native.String.append
use r_shell.Prelude.{
  Bool, Bool-cases, List, String, [], ap, both_hold, concat, eq_iff, filter, inl, inr, not, refl,
  sym, ◌&&◌, ◌++◌, ◌==◌, ◌∙◌, ◌∷◌, ◌≡◌,
}
use r_shell.Upload.Paths.{is_char, onto_first, segments, split_slash, strip_trailing}

pub split_slash-some : (s : String) → (p : String) × ((ps : List String) × (split_slash s ≡ p ∷ ps))
unfolding split_slash
split_slash-some String.[] = ("", ([], refl))
split_slash-some (String.◌∷◌ c s) =
    let later = split_slash-some s in
    elim (Bool-cases (is_char "/" c)) [
      | inl e ↦ ("", (split_slash s, rw (split_slash, e) refl))
      | inr e ↦ (String.◌∷◌ c later.0, (later.1.0, rw (split_slash, e) (rw (later.1.1) refl)))
    ]

onto_first-append :
    (c : Char) (s : String) (ps : List String)
    → onto_first c (split_slash s ++ ps) ≡ onto_first c (split_slash s) ++ ps
unfolding onto_first
onto_first-append c s ps = let some_piece = split_slash-some s in rw (some_piece.1.1) refl

slash : Char
slash = "/"

slash-cons : (b : String) → concat "/" b ≡ String.◌∷◌ slash b
unfolding slash
slash-cons b = append.cons "/" String.[] b ∙ ap (String.◌∷◌ "/") (append.nil b)

split_slash-slash : (b : String) → split_slash (concat "/" b) ≡ "" ∷ split_slash b
unfolding split_slash is_char slash
split_slash-slash b = ap split_slash (slash-cons b)

split_slash-concat :
    (a b : String) → split_slash (concat a (concat "/" b)) ≡ split_slash a ++ split_slash b
unfolding split_slash
split_slash-concat String.[] b = ap split_slash (append.nil (concat "/" b)) ∙ split_slash-slash b
split_slash-concat (String.◌∷◌ c a) b =
    ap split_slash (append.cons c a (concat "/" b)) ∙ elim (Bool-cases (is_char "/" c)) [
      | inl e ↦ rw (split_slash, e) (ap ("" ∷◌) (split_slash-concat a b))
      | inr e ↦
          rw (split_slash, e)
            (ap (onto_first c) (split_slash-concat a b) ∙ onto_first-append c a (split_slash b))
    ]

pub filter-append {ℓ} :
    {A : Type ℓ} (p : A → Bool) (xs ys : List A) → filter p (xs ++ ys) ≡ filter p xs ++ filter p ys
unfolding filter
filter-append p [] ys = refl
filter-append p (x ∷ xs) ys = elim (Bool-cases (p x)) [
  | inl e ↦ rw (filter, e) (ap (x ∷◌) (filter-append p xs ys))
  | inr e ↦ rw (filter, e) (filter-append p xs ys)
]

pub segments-slash : (b : String) → segments (concat "/" b) ≡ segments b
unfolding segments filter
segments-slash b = ap (filter (λ p. not (p == ""))) (split_slash-slash b)

-- A slash between two paths puts the segments of the one behind those of the other.
pub segments-concat : (a b : String) → segments (concat a (concat "/" b)) ≡ segments a ++ segments b
unfolding segments
segments-concat a b =
    ap (filter (λ p. not (p == ""))) (split_slash-concat a b)
    ∙ filter-append (λ p. not (p == "")) (split_slash a) (split_slash b)

-- The pieces that the slashes at the end make.
trailing_pieces :
    (s : String)
    → (es : List String) × ((split_slash s ≡ split_slash (strip_trailing (is_char "/") s) ++ es)
        × (filter (λ p. not (p == "")) es ≡ []))
unfolding strip_trailing split_slash filter
trailing_pieces String.[] = ([], (refl, refl))
trailing_pieces (String.◌∷◌ c s) =
    let later = trailing_pieces s in
    let stripped = strip_trailing (is_char "/") s in
    elim (Bool-cases (stripped == "" && is_char "/" c)) [
      | inl e ↦
          let both = both_hold (stripped == "") (is_char "/" c) e in
          let bare = (eq_iff stripped "").0 both.0 in
          (
            "" ∷ later.0,
            (
              rw (strip_trailing, e, split_slash, both.1)
                  (ap ("" ∷◌) (later.1.0 ∙ ap (λ x. split_slash x ++ later.0) bare)),
              later.1.1,
            ),
          )
      | inr e ↦ (
        later.0,
        (
          rw (strip_trailing, e)
              (elim (Bool-cases (is_char "/" c)) [
                | inl k ↦ rw (split_slash, k) (ap ("" ∷◌) later.1.0)
                | inr k ↦
                    rw (split_slash, k)
                      (ap (onto_first c) later.1.0 ∙ onto_first-append c stripped later.0)
              ]),
          later.1.1,
        ),
      )
    ]

pub append-nil {ℓ} : {A : Type ℓ} (xs : List A) → xs ++ [] ≡ xs
append-nil [] = refl
append-nil (x ∷ xs) = ap (x ∷◌) (append-nil xs)

pub segments-strip_trailing : (s : String) → segments (strip_trailing (is_char "/") s) ≡ segments s
unfolding segments
segments-strip_trailing s =
    let t = trailing_pieces s in
    let stripped = split_slash (strip_trailing (is_char "/") s) in
    sym (
      ap (filter (λ p. not (p == ""))) t.1.0
      ∙ filter-append (λ p. not (p == "")) stripped t.0
      ∙ ap (filter (λ p. not (p == "")) stripped ++◌) t.1.1
      ∙ append-nil (filter (λ p. not (p == "")) stripped))
