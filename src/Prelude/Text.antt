-- ===== src/Prelude/Text.antt =====
-- What the services use of Go's `strings` package, over native texts. The case tables of package
-- `unicode` are data that the development takes as a parameter.
use Prim.Native.Nat.{ℕ}
use Prim.Native.Char.{Char, code}
use Prim.Native.String
use Prim.Native.String.{String, [], ◌∷◌}
use mathlib.Core.Path.{◌≡◌, refl}
use mathlib.Core.List.{List, [], ◌∷◌}
use mathlib.Core.Option.{Option, none, some}
use mathlib.Core.Bool.{Bool, true, false, ◌&&◌, ◌||◌}
use text.Mathlib.TextLemmas.{nil-append, cons-append}
use todo_chat_app.Prelude.Tests.{leb, ◌==◌, if◌then◌else◌, str_eq, ==_iff}

-- `unicode.ToUpper`, `unicode.ToLower`, and the least character of the orbit under
-- `unicode.SimpleFold`.
pub record Unicode : Type 0 where
  pub upper : Char → Char
  pub lower : Char → Char
  pub fold : Char → Char

-- `unicode.IsSpace`
unfoldable pub is_space : ℕ → Bool
is_space c =
    (leb 9 c && leb c 13)
    || c == 32
    || c == 0x85
    || c == 0xA0
    || c == 0x1680
    || (leb 0x2000 c && leb c 0x200A)
    || c == 0x2028
    || c == 0x2029
    || c == 0x202F
    || c == 0x205F
    || c == 0x3000

unfoldable pub trim_left : String → String
trim_left [] = []
trim_left (c ∷ s) = let rest = trim_left s in if is_space (code c) then rest else c ∷ s

keep_or_drop : Char → String → String
keep_or_drop c [] = if is_space (code c) then [] else c ∷ []
keep_or_drop c (d ∷ s) = c ∷ d ∷ s

unfoldable pub trim_right : String → String
unfolding keep_or_drop
trim_right [] = []
trim_right (c ∷ s) = keep_or_drop c (trim_right s)

-- `strings.TrimSpace`
unfoldable pub trim_space : String → String
unfolding is_space trim_left trim_right
trim_space s = trim_right (trim_left s)

map_chars : (Char → Char) → String → String
map_chars f [] = []
map_chars f (c ∷ s) = f c ∷ map_chars f s

module _ (u : Unicode) where
  -- `strings.ToUpper`
  unfoldable pub to_upper : String → String
  unfolding map_chars
  to_upper s = map_chars u.upper s

  -- `strings.ToLower`
  unfoldable pub to_lower : String → String
  unfolding map_chars
  to_lower s = map_chars u.lower s

  -- `strings.EqualFold`
  unfoldable pub equal_fold : String → String → Bool
  unfolding map_chars
  equal_fold s t = str_eq (map_chars u.fold s) (map_chars u.fold t)

-- The comparison with a text literal that `s == ""` makes.
unfoldable pub is_empty : String → Bool
is_empty [] = true
is_empty (c ∷ s) = false

-- `strings.CutPrefix`, with the prefix first; none where the text has not this prefix.
unfoldable pub cut_prefix : String → String → Option String
cut_prefix [] s = some s
cut_prefix (c ∷ p) [] = none
cut_prefix (c ∷ p) (d ∷ s) = let rest = cut_prefix p s in if code c == code d then rest else none

-- `strings.Split(s, ",")`: one part more than there are commas.
onto_first : Char → List String → List String
onto_first c [] = (c ∷ []) ∷ []
onto_first c (part ∷ parts) = (c ∷ part) ∷ parts

unfoldable pub split_commas : String → List String
unfolding onto_first
split_commas [] = [] ∷ []
split_commas (c ∷ s) =
    let rest = split_commas s in if code c == b',' then [] ∷ rest else onto_first c rest

pub cut_prefix-append : (p s : String) → cut_prefix p (String.◌++◌ p s) ≡ some s
unfolding cut_prefix
cut_prefix-append [] s = rw (nil-append s) refl
cut_prefix-append (c ∷ p) s =
    rw (cons-append c p s, (==_iff (code c) (code c)).1 refl) (cut_prefix-append p s)

-- `strings.TrimSuffix(s, "/")`, and `strings.TrimRight(s, "/")`
slash_or : Char → String → String
slash_or c [] = if code c == b'/' then [] else c ∷ []
slash_or c (d ∷ s) = c ∷ d ∷ s

unfoldable pub trim_slash : String → String
trim_slash [] = []
trim_slash (c ∷ []) = if code c == b'/' then [] else c ∷ []
trim_slash (c ∷ d ∷ s) = c ∷ trim_slash (d ∷ s)

unfoldable pub trim_slashes : String → String
unfolding slash_or
trim_slashes [] = []
trim_slashes (c ∷ s) = slash_or c (trim_slashes s)

trimmed : trim_space " a b\t" ≡ "a b"
unfolding trim_space
trimmed = refl
