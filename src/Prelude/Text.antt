-- ===== src/Prelude/Text.antt =====
-- Texts, and numbers printed in decimal as `String(n)` prints them.
use Prim.Native.Nat.{ℕ, zero, suc, ◌+◌, ◌-◌, ◌*◌, ◌/◌, ◌%◌, ◌<◌}
use Prim.Native.Char.{Char, code}
use Prim.Native.String.{String, ◌++◌, count}
use Prim.Native.String.append
use mathlib.Core.Path.{◌≡◌, refl, sym, ap, ◌∙◌}
use mathlib.Core.Logic.{inl, inr}
use mathlib.Core.Bool.{Bool, true, false, ◌&&◌}
use native.Mathlib.Omega.{arith}
use text.Mathlib.Text.{◌==◌}
use text.Mathlib.TextEquality.{eq_iff}
use text.Mathlib.TextPositions.{eq_refl}
use text.Mathlib.TextLemmas.{append_assoc, length-append}
use r_shell.Prelude.Tests.{both_hold, ltb, if◌then◌else◌, Bool-cases}

digit_char : ℕ → Char
digit_char zero = "0"
digit_char (suc zero) = "1"
digit_char (suc (suc zero)) = "2"
digit_char (suc (suc (suc zero))) = "3"
digit_char (suc (suc (suc (suc zero)))) = "4"
digit_char (suc (suc (suc (suc (suc zero))))) = "5"
digit_char (suc (suc (suc (suc (suc (suc zero)))))) = "6"
digit_char (suc (suc (suc (suc (suc (suc (suc zero))))))) = "7"
digit_char (suc (suc (suc (suc (suc (suc (suc (suc zero)))))))) = "8"
digit_char _ = "9"

show_digits : ℕ → ℕ → String → String
show_digits zero n out = out
show_digits (suc f) n out =
    let more = show_digits f (n / 10) (String.◌∷◌ (digit_char (n % 10)) out) in
    if ltb n 10 then String.◌∷◌ (digit_char n) out else more

-- `String(n)`
unfoldable pub show : ℕ → String
unfolding show_digits digit_char
show n = show_digits (suc n) n String.[]

-- `Number(s)` on a text of digits
unfoldable pub read_digits : ℕ → String → ℕ
read_digits acc String.[] = acc
read_digits acc (String.◌∷◌ c s) = read_digits (acc * 10 + (code c - 48)) s

digit_char-code : (d : ℕ) → d < 10 → code (digit_char d) - 48 ≡ d
unfolding digit_char
digit_char-code zero h = refl
digit_char-code (suc zero) h = refl
digit_char-code (suc (suc zero)) h = refl
digit_char-code (suc (suc (suc zero))) h = refl
digit_char-code (suc (suc (suc (suc zero)))) h = refl
digit_char-code (suc (suc (suc (suc (suc zero))))) h = refl
digit_char-code (suc (suc (suc (suc (suc (suc zero)))))) h = refl
digit_char-code (suc (suc (suc (suc (suc (suc (suc zero))))))) h = refl
digit_char-code (suc (suc (suc (suc (suc (suc (suc (suc zero)))))))) h = refl
digit_char-code (suc (suc (suc (suc (suc (suc (suc (suc (suc zero))))))))) h = refl
digit_char-code (suc (suc (suc (suc (suc (suc (suc (suc (suc (suc n)))))))))) h =
    absurd (omega arith)

read_digits-step :
    (acc d : ℕ) (s : String)
    → d < 10
    → read_digits acc (String.◌∷◌ (digit_char d) s) ≡ read_digits (acc * 10 + d) s
unfolding read_digits
read_digits-step acc d s h = ap (λ e. read_digits (acc * 10 + e) s) (digit_char-code d h)

read_digits-show_digits :
    (f n : ℕ) (out : String) → n < f → read_digits 0 (show_digits f n out) ≡ read_digits n out
unfolding show_digits
read_digits-show_digits zero n out h = elim h [ ]
read_digits-show_digits (suc f) n out h = elim (Bool-cases (ltb n 10)) [
  | inl small ↦
      rw small (read_digits-step 0 n out (ground arith) ∙ ap (λ k. read_digits k out) (omega arith))
  | inr big ↦ rw big (
      read_digits-show_digits f (n / 10) _ (ground arith)
      ∙ read_digits-step (n / 10) (n % 10) out (omega arith)
      ∙ ap (λ k. read_digits k out) (omega arith))
]

-- Reading back what `String(n)` prints gives `n`, so no two numbers print alike.
pub show_inj : (m n : ℕ) → show m ≡ show n → m ≡ n
unfolding show read_digits
show_inj m n e =
    sym (read_digits-show_digits (suc m) m String.[] (omega arith))
    ∙ ap (read_digits 0) e
    ∙ read_digits-show_digits (suc n) n String.[] (omega arith)

show_example : show 120 ≡ "120"
unfolding show
show_example = refl

-- `a + b` on texts
abbrev pub concat : String → String → String
concat a b = a ++ b

text_tail : String → String
text_tail String.[] = String.[]
text_tail (String.◌∷◌ c s) = s

-- Texts that agree behind a common beginning are equal.
pub concat_cancel : (a b c : String) → concat a b ≡ concat a c → b ≡ c
unfolding text_tail
concat_cancel String.[] b c e = sym (append.nil b) ∙ e ∙ append.nil c
concat_cancel (String.◌∷◌ x a) b c e =
    concat_cancel a b c (ap text_tail (sym (append.cons x a b) ∙ e ∙ append.cons x a c))

-- `text.startsWith(prefix)`
unfoldable pub starts_with : String → String → Bool
starts_with String.[] s = true
starts_with (String.◌∷◌ c p) String.[] = false
starts_with (String.◌∷◌ c p) (String.◌∷◌ d s) =
    String.◌∷◌ c String.[] == String.◌∷◌ d String.[] && starts_with p s

-- `text.substring(prefix.length)`
unfoldable pub after : String → String → String
after String.[] s = s
after (String.◌∷◌ c p) String.[] = String.[]
after (String.◌∷◌ c p) (String.◌∷◌ d s) = after p s

one_char : Char → String
one_char c = String.◌∷◌ c String.[]

cons_as_concat : (c : Char) (s : String) → String.◌∷◌ c s ≡ concat (one_char c) s
unfolding one_char
cons_as_concat c s = sym (append.cons c String.[] s ∙ ap (String.◌∷◌ c) (append.nil s))

-- A text that starts with `p` is `p` and what comes after it.
pub starts_with-after : (p s : String) → starts_with p s ≡ true → s ≡ concat p (after p s)
unfolding starts_with after one_char
starts_with-after String.[] s h = sym (append.nil s)
starts_with-after (String.◌∷◌ c p) String.[] h = cc
starts_with-after (String.◌∷◌ c p) (String.◌∷◌ d s) h =
    let both = both_hold (one_char c == one_char d) (starts_with p s) h in
    let same : one_char c ≡ one_char d = (eq_iff (one_char c) (one_char d)).0 both.0 in
    cons_as_concat d s
    ∙ ap (λ x. concat x s) (sym same)
    ∙ sym (cons_as_concat c s)
    ∙ ap (String.◌∷◌ c) (starts_with-after p s both.1)
    ∙ sym (append.cons c p (after p s))

pub starts_with-concat : (p s : String) → starts_with p (concat p s) ≡ true
unfolding starts_with
starts_with-concat String.[] s = refl
starts_with-concat (String.◌∷◌ c p) s =
    ap (starts_with (String.◌∷◌ c p)) (append.cons c p s)
    ∙ rw (eq_refl (String.◌∷◌ c String.[])) (starts_with-concat p s)

pub after-concat : (p s : String) → after p (concat p s) ≡ s
unfolding after
after-concat String.[] s = append.nil s
after-concat (String.◌∷◌ c p) s = ap (after (String.◌∷◌ c p)) (append.cons c p s) ∙ after-concat p s

pub concat_assoc : (a b c : String) → concat (concat a b) c ≡ concat a (concat b c)
concat_assoc a b c = append_assoc a b c

-- The number of characters.
abbrev pub text_length : String → ℕ
text_length s = count s

pub text_length-concat : (a b : String) → text_length (concat a b) ≡ text_length a + text_length b
text_length-concat a b = length-append a b
