-- ===== src/Upload/Normal.antt =====
-- The normal form of a relative path in src/lib/upload-paths.ts, and what a join puts together.
use r_shell.Prelude.{
  Bool-cases, List, Memᴰ, String, [], ap, concat, eq_iff, false, filter, if◌then◌else◌, inl, inr,
  refl, sym, true, ◌++◌, ◌==◌, ◌||◌, ◌∙◌, ◌∷◌, ◌≡◌,
}
use r_shell.Upload.Cut.{append-nil, segments-concat, segments-slash, segments-strip_trailing}
use r_shell.Upload.Paths.{
  forward_slashes, has_backslash, is_char, join_remote_path, join_slash,
  normalize_relative_upload_path, segments, split_slash, strip_trailing,
}
use r_shell.Upload.Pieces.{
  ArePieces, IsPiece, IsPiece-empty, forward_slashes-same, has_backslash-concat, pieces_below,
  segments-ArePieces,
}

segments-IsPiece : (p : String) → IsPiece p → (p == "") ≡ false → segments p ≡ p ∷ []
unfolding segments filter
segments-IsPiece p w e = rw (segments, w.whole) (rw (filter, e) refl)

no_segment : segments "" ≡ []
unfolding segments split_slash filter
no_segment = refl

bare_slash : (false || (has_backslash "/" || false)) ≡ false
unfolding has_backslash is_char
bare_slash = refl

-- The pieces that are joined are the segments of the join.
segments-join_slash :
    (ps : List String)
    → ArePieces ps
    → (segments (join_slash ps) ≡ ps) × (has_backslash (join_slash ps) ≡ false)
unfolding join_slash
segments-join_slash [] h = (no_segment, IsPiece-empty.forward)
segments-join_slash (p ∷ []) h =
    let here = h.piece p (Memᴰ.head refl) in
    (segments-IsPiece p here (h.filled p (Memᴰ.head refl)), here.forward)
segments-join_slash (p ∷ q ∷ ps) h =
    let here = h.piece p (Memᴰ.head refl) in
    let later = segments-join_slash (q ∷ ps) (pieces_below h) in
    (
      segments-concat p (join_slash (q ∷ ps))
          ∙ ap (λ l. l ++ segments (join_slash (q ∷ ps)))
              (segments-IsPiece p here (h.filled p (Memᴰ.head refl)))
          ∙ ap (p ∷◌) later.0,
      has_backslash-concat p (concat "/" (join_slash (q ∷ ps)))
          ∙ rw (here.forward, has_backslash-concat "/" (join_slash (q ∷ ps)), later.1) bare_slash,
    )

-- The segments of a normal form are those of the path, and a normal form is its own.
pub segments-normalize :
    (path : String)
    → (segments (normalize_relative_upload_path path) ≡ segments (forward_slashes path))
      × (normalize_relative_upload_path (normalize_relative_upload_path path)
          ≡ normalize_relative_upload_path path)
unfolding normalize_relative_upload_path
segments-normalize path =
    let ps = segments (forward_slashes path) in
    let j = segments-join_slash ps (segments-ArePieces path) in
    (
      j.0,
      ap (λ x. join_slash (segments x)) (forward_slashes-same (join_slash ps) j.1)
          ∙ ap join_slash j.0,
    )

only_slash : segments "/" ≡ []
unfolding segments split_slash filter is_char
only_slash = refl

-- The cases of `joinRemotePath`.
joined :
    (b r : String)
    → segments (
        if r == ""
        then if b == "" then "/" else b
        else if b == "" || b == "/"
        then concat "/" r
        else concat b (concat "/" r))
      ≡ segments b ++ segments r
joined b r = elim (Bool-cases (r == "")) [
  | inl e ↦
      let none_behind = ap segments ((eq_iff r "").0 e) ∙ no_segment in
      elim (Bool-cases (b == "")) [
        | inl k ↦
            rw (e, k, none_behind)
              (only_slash
                ∙ sym no_segment
                ∙ ap segments (sym ((eq_iff b "").0 k))
                ∙ sym (append-nil (segments b)))
        | inr k ↦ rw (e, k, none_behind) (sym (append-nil (segments b)))
      ]
  | inr e ↦ elim (Bool-cases (b == "" || b == "/")) [
    | inl k ↦ rw (e, k) (segments-slash r ∙ ap (λ l. l ++ segments r) (sym (bare k)))
    | inr k ↦ rw (e, k) (segments-concat b r)
  ]
]
  where
    bare : (b == "" || b == "/") ≡ true → segments b ≡ []
    bare k = elim (Bool-cases (b == "")) [
      | inl l ↦ ap segments ((eq_iff b "").0 l) ∙ no_segment
      | inr l ↦
          let slash : b == "/" ≡ true = rw l at k in
          ap segments ((eq_iff b "/").0 slash) ∙ only_slash
    ]

-- A remote path that is joined of a directory and a relative path has the segments of the one and then
-- those of the other, wherever the two have slashes or backslashes at their ends, or are empty.
pub segments-join_remote_path :
    (base relative_path : String)
    → segments (join_remote_path base relative_path)
      ≡ segments (forward_slashes base) ++ segments (forward_slashes relative_path)
unfolding join_remote_path
segments-join_remote_path base relative_path =
    let clean_base = strip_trailing (is_char "/") (forward_slashes base) in
    joined clean_base (normalize_relative_upload_path relative_path)
    ∙ ap (λ l. l ++ segments (normalize_relative_upload_path relative_path))
        (segments-strip_trailing (forward_slashes base))
    ∙ ap (segments (forward_slashes base) ++◌) (segments-normalize relative_path).0
