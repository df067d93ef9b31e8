-- ===== src/Service/Workspace/Slug.antt =====
-- `generateSlug` of internal/service/workspace_service.go. The regular expressions are written out
-- as functions on characters. A text is made of characters and `len` counts the bytes of their UTF-8
-- encoding; a cut of the bytes keeps the characters that fit, which is all of it where the text is
-- ASCII, as it is from the first regular expression on.
pub mod Bounds
use Prim.Native.String
use Prim.Native.String.{String, [], ◌∷◌, len}
use Prim.Native.Char.{Char, code, len_utf8}
use todo_chat_app.Prelude.{ℕ, ◌-◌, Bool, true, false, not, ◌||◌, ◌&&◌, leb, ◌==◌, if◌then◌else◌}
use todo_chat_app.Prelude.Text.{Unicode, is_space, trim_left, trim_right, trim_space, to_lower}

abbrev pub is_dash : Char → Bool
is_dash c = code c == b'-'

-- `[a-z0-9-]`
abbrev pub is_slug_char : Char → Bool
is_slug_char c =
    (leb b'a' (code c) && leb (code c) b'z')
    || (leb b'0' (code c) && leb (code c) b'9')
    || is_dash c

abbrev pub dash : String
dash = "-"

-- `strings.Join(strings.Fields(name), "-")`: each run of spaces between two fields is one dash.
-- The flag says that a field stands before, and a space since.
unfoldable pub join_fields : Bool → Bool → String → String
join_fields seen gap [] = []
join_fields seen gap (c ∷ s) =
    let skipped = join_fields seen true s in
    let kept = c ∷ join_fields true false s in
    if is_space (code c) then skipped else if seen && gap then String.◌++◌ dash kept else kept

-- `reSlugInvalid.ReplaceAllString(joined, "")`
unfoldable pub drop_invalid : String → String
drop_invalid [] = []
drop_invalid (c ∷ s) = let rest = drop_invalid s in if is_slug_char c then c ∷ rest else rest

unfoldable pub starts_with_dash : String → Bool
starts_with_dash [] = false
starts_with_dash (c ∷ s) = is_dash c

-- `reSlugDash.ReplaceAllString(clean, "-")`
unfoldable pub collapse : String → String
unfolding starts_with_dash
collapse [] = []
collapse (c ∷ s) =
    let rest = collapse s in if is_dash c && starts_with_dash rest then rest else c ∷ rest

-- `strings.Trim(s, "-")`, in its two halves
unfoldable pub trim_dash_left : String → String
trim_dash_left [] = []
trim_dash_left (c ∷ s) = let rest = trim_dash_left s in if is_dash c then rest else c ∷ s

unfoldable pub cut_dash : Char → String → String
cut_dash c [] = if is_dash c then [] else c ∷ []
cut_dash c (d ∷ s) = c ∷ d ∷ s

unfoldable pub trim_dash_right : String → String
unfolding cut_dash
trim_dash_right [] = []
trim_dash_right (c ∷ s) = cut_dash c (trim_dash_right s)

abbrev pub max_slug_base : ℕ
max_slug_base = 93

-- `s[:n]`
unfoldable pub prefix : ℕ → String → String
prefix n [] = []
prefix n (c ∷ s) =
    let rest = prefix (n - len_utf8 c) s in if leb (len_utf8 c) n then c ∷ rest else []

unfoldable pub cut_base : String → String
unfolding prefix trim_dash_right
cut_base s = if leb (len s) max_slug_base then s else trim_dash_right (prefix max_slug_base s)

unfoldable pub slug_base : Unicode → String → String
slug_base u name = cut_base (
    trim_dash_right (
      trim_dash_left
        (collapse (drop_invalid (join_fields false false (to_lower u (trim_space name)))))))

-- The random text is `rand.Text()`.
unfoldable pub generate_slug : Unicode → String → String → String
generate_slug u name random =
    String.◌++◌ (slug_base u name) (String.◌++◌ dash (to_lower u (prefix 6 random)))
