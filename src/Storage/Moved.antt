-- ===== src/Storage/Moved.antt =====
-- Where the move of a folder in src/lib/connection-storage.ts puts a path.
use r_shell.Prelude.{
  Bool, Bool-cases, String, after, after-concat, ap, arith, concat, concat_assoc, concat_cancel,
  eq_iff, eq_refl, false, inl, inr, not, refl, starts_with, starts_with-after, starts_with-concat,
  subst, sym, text_length, text_length-concat, true, ◌&&◌, ◌==◌, ◌∙◌, ◌≡◌, ◌≢◌,
}
use r_shell.Storage.Folders.{is_under, moved_path, rebased}

-- Neither `folder` nor under it.
unfoldable pub is_outside : String → String → Bool
unfolding is_under
is_outside folder path = not (path == folder) && not (is_under folder path)

-- Where a path is, seen from the folder that moves, and what becomes of it.
pub data Place (p n x : String) : Type 0 where
  at_folder : x ≡ p → moved_path p n x ≡ n → Place p n x
  below :
      (r : String)
      → x ≡ concat p (concat "/" r)
      → moved_path p n x ≡ concat n (concat "/" r)
      → Place p n x
  elsewhere : moved_path p n x ≡ x → is_outside p x ≡ true → Place p n x

pub is_under-concat : (n r : String) → is_under n (concat n (concat "/" r)) ≡ true
unfolding is_under
is_under-concat n r =
    ap (starts_with (concat n "/")) (sym (concat_assoc n "/" r))
    ∙ starts_with-concat (concat n "/") r

split_under : (p x : String) → is_under p x ≡ true → (r : String) × (x ≡ concat p (concat "/" r))
unfolding is_under
split_under p x h =
    let r = after (concat p "/") x in
    (r, starts_with-after (concat p "/") x h ∙ concat_assoc p "/" r)

pub place : (p n x : String) → Place p n x
unfolding moved_path rebased is_outside
place p n x = elim (Bool-cases (x == p)) [
  | inl e ↦ at_folder ((eq_iff x p).0 e) (rw (moved_path, e) refl)
  | inr e ↦ elim (Bool-cases (is_under p x)) [
    | inl u ↦
        let s = split_under p x u in
        below s.0 s.1 (
          rw (moved_path, e, u)
            (ap (λ y. concat n (after p y)) s.1 ∙ ap (concat n) (after-concat p (concat "/" s.0))))
    | inr u ↦ elsewhere (rw (moved_path, e, u) refl) (rw (e, u) refl)
  ]
]

not_at : (n r : String) → n ≢ concat n (concat "/" r)
not_at n r e = omega (
  arith,
  ap text_length e,
  text_length-concat n (concat "/" r),
  text_length-concat "/" r,
  one_long,
)
  where
    one_long : text_length "/" ≡ 1
    one_long = refl

and_false : (a : Bool) → (a && false) ≢ true
and_false true h = cc
and_false false h = cc

outside_not : (n r : String) → is_outside n (concat n (concat "/" r)) ≢ true
unfolding is_outside
outside_not n r h =
    and_false (not (concat n (concat "/" r) == n)) (rw (is_outside, is_under-concat n r) at h)

outside_self : (n : String) → is_outside n n ≢ true
unfolding is_outside
outside_self n h = let e : false ≡ true = rw (is_outside, eq_refl n) at h in cc

-- Paths that are not at or under the new path stay different.
pub moved_path_inj :
    (p n x y : String)
    → is_outside n x ≡ true
    → is_outside n y ≡ true
    → moved_path p n x ≡ moved_path p n y
    → x ≡ y
moved_path_inj p n x y hx hy e = by_places (place p n x) (place p n y)
  where
    by_places : Place p n x → Place p n y → x ≡ y
    by_places (at_folder a k) (at_folder b l) = a ∙ sym b
    by_places (at_folder a k) (below r b l) = absurd (not_at n r (sym k ∙ e ∙ l))
    by_places (at_folder a k) (elsewhere l o) =
        absurd (outside_self n (subst (λ z. is_outside n z ≡ true) (sym (sym k ∙ e ∙ l)) hy))
    by_places (below r a k) (at_folder b l) = absurd (not_at n r (sym (sym k ∙ e ∙ l)))
    by_places (below r a k) (below q b l) =
        a ∙ ap (concat p) (concat_cancel n (concat "/" r) (concat "/" q) (sym k ∙ e ∙ l)) ∙ sym b
    by_places (below r a k) (elsewhere l o) =
        absurd (outside_not n r (subst (λ z. is_outside n z ≡ true) (sym (sym k ∙ e ∙ l)) hy))
    by_places (elsewhere k o) (at_folder b l) =
        absurd (outside_self n (subst (λ z. is_outside n z ≡ true) (sym k ∙ e ∙ l) hx))
    by_places (elsewhere k o) (below r b l) =
        absurd (outside_not n r (subst (λ z. is_outside n z ≡ true) (sym k ∙ e ∙ l) hx))
    by_places (elsewhere k o) (elsewhere l q) = sym k ∙ e ∙ l

-- So whether two of them are equal stays as it was.
pub moved_path-eq :
    (p n x y : String)
    → is_outside n x ≡ true
    → is_outside n y ≡ true
    → (moved_path p n x == moved_path p n y) ≡ (x == y)
moved_path-eq p n x y hx hy = elim (Bool-cases (x == y)) [
  | inl e ↦
      ap (λ z. moved_path p n x == moved_path p n z) (sym ((eq_iff x y).0 e))
      ∙ eq_refl (moved_path p n x)
      ∙ sym e
  | inr e ↦ elim (Bool-cases (moved_path p n x == moved_path p n y)) [
    | inl k ↦
        let same =
          moved_path_inj p n x y hx hy ((eq_iff (moved_path p n x) (moved_path p n y)).0 k) in
        absurd (ground (arith, e, eq_iff x y, same))
    | inr k ↦ k ∙ sym e
  ]
]
