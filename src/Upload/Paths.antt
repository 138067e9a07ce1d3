-- ===== src/Upload/Paths.antt =====
-- The paths of src/lib/upload-paths.ts: base names, normal forms and joins. A path is cut at slashes.
use Prim.Native.Char.{Char, code}
use r_shell.Prelude.{
  Bool, List, String, [], concat, false, filter, if◌then◌else◌, last?, leb, length, not, or_else, ℕ,
  ◌&&◌, ◌==◌, ◌||◌, ◌∷◌,
}

-- The character is one of the text's.
unfoldable pub is_char : String → Char → Bool
is_char sample c = String.◌∷◌ c String.[] == sample

unfoldable pub is_separator : Char → Bool
unfolding is_char
is_separator c = is_char "/" c || is_char "\\" c

-- `path.replace(/\\/g, '/')`
unfoldable pub forward_slashes : String → String
unfolding is_char
forward_slashes String.[] = String.[]
forward_slashes (String.◌∷◌ c s) =
    String.◌∷◌ (if is_char "\\" c then "/" else c) (forward_slashes s)

-- A character in front of the first piece.
unfoldable pub onto_first : Char → List String → List String
onto_first c [] = String.◌∷◌ c String.[] ∷ []
onto_first c (p ∷ ps) = String.◌∷◌ c p ∷ ps

-- `path.split('/')`
unfoldable pub split_slash : String → List String
unfolding is_char onto_first
split_slash String.[] = "" ∷ []
split_slash (String.◌∷◌ c s) =
    let others = split_slash s in if is_char "/" c then "" ∷ others else onto_first c others

-- `path.split('/').filter(Boolean)`
unfoldable pub segments : String → List String
unfolding split_slash
segments path = filter (λ p. not (p == "")) (split_slash path)

-- `pieces.join('/')`
unfoldable pub join_slash : List String → String
join_slash [] = ""
join_slash (p ∷ []) = p
join_slash (p ∷ q ∷ ps) = concat p (concat "/" (join_slash (q ∷ ps)))

-- `path.replace(/[…]+$/, '')`
unfoldable pub strip_trailing : (Char → Bool) → String → String
strip_trailing test String.[] = String.[]
strip_trailing test (String.◌∷◌ c s) =
    let others = strip_trailing test s in if others == "" && test c then "" else String.◌∷◌ c others

-- `path.replace(/^[…]+/, '')`
unfoldable pub strip_leading : (Char → Bool) → String → String
strip_leading test String.[] = String.[]
strip_leading test (String.◌∷◌ c s) =
    let others = strip_leading test s in if test c then others else String.◌∷◌ c s

unfoldable pub get_local_path_basename : String → String
unfolding strip_trailing is_separator forward_slashes segments
get_local_path_basename path =
    let trimmed = strip_trailing is_separator path in
    or_else (last? (segments (forward_slashes trimmed))) trimmed

unfoldable pub normalize_relative_upload_path : String → String
unfolding forward_slashes segments join_slash
normalize_relative_upload_path path = join_slash (segments (forward_slashes path))

unfoldable pub join_remote_path : String → String → String
unfolding forward_slashes strip_trailing is_char normalize_relative_upload_path
join_remote_path base relative_path =
    let clean_base = strip_trailing (is_char "/") (forward_slashes base) in
    let clean_relative = normalize_relative_upload_path relative_path in
    if clean_relative == ""
    then if clean_base == "" then "/" else clean_base
    else if clean_base == "" || clean_base == "/"
    then concat "/" clean_relative
    else concat clean_base (concat "/" clean_relative)

-- The text begins with a separator.
begins_with_separator : String → Bool
unfolding is_separator
begins_with_separator String.[] = false
begins_with_separator (String.◌∷◌ c s) = is_separator c

-- `path.replace(/[\\/]+/g, separator)`
unfoldable pub replace_separators : Char → String → String
unfolding is_separator begins_with_separator
replace_separators separator String.[] = String.[]
replace_separators separator (String.◌∷◌ c s) =
    let others = replace_separators separator s in
    if is_separator c
    then if begins_with_separator s then others else String.◌∷◌ separator others
    else String.◌∷◌ c others

-- `base.includes('\\')`
unfoldable pub has_backslash : String → Bool
unfolding is_char
has_backslash String.[] = false
has_backslash (String.◌∷◌ c s) = is_char "\\" c || has_backslash s

is_letter : Char → Bool
is_letter c = (leb 65 (code c) && leb (code c) 90) || (leb 97 (code c) && leb (code c) 122)

-- `/^[A-Za-z]:/.test(base)`
unfoldable pub has_drive : String → Bool
unfolding is_letter is_char
has_drive (String.◌∷◌ c (String.◌∷◌ d s)) = is_letter c && is_char ":" d
has_drive base = false

unfoldable pub join_local_path : String → String → String
unfolding strip_trailing is_separator has_backslash has_drive replace_separators strip_leading
join_local_path base relative_path =
    let clean_base = strip_trailing is_separator base in
    let separator : Char = if has_backslash base || has_drive base then "\\" else "/" in
    let clean_relative = strip_leading is_separator (replace_separators separator relative_path) in
    if clean_relative == ""
    then if clean_base == "" then base else clean_base
    else if clean_base == ""
    then clean_relative
    else concat clean_base (String.◌∷◌ separator clean_relative)

unfoldable pub remote_path_depth : String → ℕ
unfolding segments
remote_path_depth path = length (segments path)
