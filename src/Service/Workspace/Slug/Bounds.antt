-- ===== src/Service/Workspace/Slug/Bounds.antt =====
-- The length and the characters of a slug.
use Prim.Native.String
use Prim.Native.String.len
use native.Mathlib.Omega.{compare-eq, compare-gt}
use Prim.Native.Nat.{compare, Ordering}
use text.Mathlib.TextPositions.{len-append}
use Prim.Native.String.{String, [], ◌∷◌, len}
use Prim.Native.Char.{Char, code, len_utf8, len_utf8_def, width}
use todo_chat_app.Prelude.{
  ℕ, ◌+◌, ◌-◌, ◌≤◌, ◌<◌, ◌∙◌, ◌≡◌, refl, arith, true, false, Bool-cases, inl, inr, leb, ◌&&◌,
}
use todo_chat_app.Prelude.Text.{Unicode, trim_space, to_lower}
use todo_chat_app.Service.Workspace.Slug.{
  is_dash, is_slug_char, join_fields, drop_invalid, starts_with_dash, collapse, trim_dash_left,
  cut_dash, trim_dash_right, prefix, cut_base, slug_base, generate_slug, dash, max_slug_base,
}

abbrev pub AllSlug : String → Type 0
AllSlug [] = Unit
AllSlug (c ∷ s) = (is_slug_char c ≡ true) × AllSlug s

drop_invalid-AllSlug : (s : String) → AllSlug (drop_invalid s)
unfolding drop_invalid
drop_invalid-AllSlug [] = tt
drop_invalid-AllSlug (c ∷ s) = elim (Bool-cases (is_slug_char c)) [
  | inl good ↦ rw good (good, drop_invalid-AllSlug s)
  | inr bad ↦ rw bad (drop_invalid-AllSlug s)
]

collapse-AllSlug : (s : String) → AllSlug s → AllSlug (collapse s)
unfolding collapse
collapse-AllSlug [] h = tt
collapse-AllSlug (c ∷ s) h = elim (Bool-cases (is_dash c && starts_with_dash (collapse s))) [
  | inl twice ↦ rw twice (collapse-AllSlug s h.1)
  | inr once ↦ rw once (h.0, collapse-AllSlug s h.1)
]

trim_dash_left-AllSlug : (s : String) → AllSlug s → AllSlug (trim_dash_left s)
unfolding trim_dash_left
trim_dash_left-AllSlug [] h = tt
trim_dash_left-AllSlug (c ∷ s) h = elim (Bool-cases (is_dash c)) [
  | inl cut ↦ rw cut (trim_dash_left-AllSlug s h.1)
  | inr kept ↦ rw kept h
]

cut_dash-AllSlug :
    (c : Char) (s : String) → is_slug_char c ≡ true → AllSlug s → AllSlug (cut_dash c s)
unfolding cut_dash
cut_dash-AllSlug c [] p h = elim (Bool-cases (is_dash c)) [
  | inl cut ↦ rw cut tt
  | inr kept ↦ rw kept (p, tt)
]
cut_dash-AllSlug c (d ∷ s) p h = (p, h)

trim_dash_right-AllSlug : (s : String) → AllSlug s → AllSlug (trim_dash_right s)
unfolding trim_dash_right
trim_dash_right-AllSlug [] h = tt
trim_dash_right-AllSlug (c ∷ s) h =
    cut_dash-AllSlug c (trim_dash_right s) h.0 (trim_dash_right-AllSlug s h.1)

prefix-AllSlug : (n : ℕ) (s : String) → AllSlug s → AllSlug (prefix n s)
unfolding prefix
prefix-AllSlug n [] h = tt
prefix-AllSlug n (c ∷ s) h = elim (Bool-cases (leb (len_utf8 c) n)) [
  | inl fits ↦ rw fits (h.0, prefix-AllSlug (n - len_utf8 c) s h.1)
  | inr over ↦ rw over tt
]

cut_base-AllSlug : (s : String) → AllSlug s → AllSlug (cut_base s)
unfolding cut_base
cut_base-AllSlug s h = elim (Bool-cases (leb (len s) max_slug_base)) [
  | inl short ↦ rw short h
  | inr long ↦
      rw long (trim_dash_right-AllSlug (prefix max_slug_base s) (prefix-AllSlug max_slug_base s h))
]

-- The part of a slug that comes from the name has only the characters `a` to `z`, `0` to `9` and `-`.
pub slug_base-AllSlug : (u : Unicode) (name : String) → AllSlug (slug_base u name)
unfolding slug_base
slug_base-AllSlug u name =
    let joined = join_fields false false (to_lower u (trim_space name)) in
    let clean = collapse-AllSlug (drop_invalid joined) (drop_invalid-AllSlug joined) in
    let left = trim_dash_left-AllSlug (collapse (drop_invalid joined)) clean in
    cut_base-AllSlug _ (trim_dash_right-AllSlug _ left)

len-cut_dash : (c : Char) (s : String) → len (cut_dash c s) ≤ len_utf8 c + len s
unfolding cut_dash
len-cut_dash c [] = elim (Bool-cases (is_dash c)) [
  | inl cut ↦ rw (cut, len.nil) (omega arith)
  | inr kept ↦ rw (kept, len.cons c [], len.nil) (omega arith)
]
len-cut_dash c (d ∷ s) = rw (len.cons c (d ∷ s)) (omega arith)

len-trim_dash_right : (s : String) → len (trim_dash_right s) ≤ len s
unfolding trim_dash_right
len-trim_dash_right [] = omega arith
len-trim_dash_right (c ∷ s) =
    rw (len.cons c s) (omega (arith, len-cut_dash c (trim_dash_right s), len-trim_dash_right s))

len-prefix : (n : ℕ) (s : String) → len (prefix n s) ≤ n
unfolding prefix
len-prefix n [] = rw (len.nil) (omega arith)
len-prefix n (c ∷ s) = elim (Bool-cases (leb (len_utf8 c) n)) [
  | inl fits ↦
      rw (fits, len.cons c (prefix (n - len_utf8 c) s))
        (ground (arith, len-prefix (n - len_utf8 c) s, fits))
  | inr over ↦ rw (over, len.nil) (omega arith)
]

len-cut_base : (s : String) → len (cut_base s) ≤ 93
unfolding cut_base
len-cut_base s = elim (Bool-cases (leb (len s) max_slug_base)) [
  | inl short ↦ rw short (ground arith)
  | inr long ↦
      rw long
        (omega (arith, len-trim_dash_right (prefix max_slug_base s), len-prefix max_slug_base s))
]

-- Every character is ASCII.
abbrev pub IsAscii : String → Type 0
IsAscii [] = Unit
IsAscii (c ∷ s) = (code c < 128) × IsAscii s

-- `strings.ToLower` takes ASCII to ASCII.
abbrev pub LowersAscii : Unicode → Type 0
LowersAscii u = (c : Char) → code c < 128 → code (u.lower c) < 128

len_utf8_ascii : (c : Char) → code c < 128 → len_utf8 c ≡ 1
len_utf8_ascii c h = len_utf8_def c ∙ go (compare (code c) 128) refl
  where
    go :
        (o : Ordering)
        → compare (code c) 128 ≡ o
        → width o (compare (code c) 2048) (compare (code c) 65536) ≡ 1
    go Ordering.lt e = refl
    go Ordering.eq e = absurd (omega (arith, compare-eq (code c) 128 e))
    go Ordering.gt e = absurd (omega (arith, compare-gt (code c) 128 e))

len-to_lower : (u : Unicode) (s : String) → LowersAscii u → IsAscii s → len (to_lower u s) ≡ len s
unfolding to_lower
len-to_lower u [] lowers h = refl
len-to_lower u (c ∷ s) lowers h =
    rw (len.cons c s, len.cons (u.lower c) (to_lower u s))
      (omega (
        arith,
        len_utf8_ascii c h.0,
        len_utf8_ascii (u.lower c) (lowers c h.0),
        len-to_lower u s lowers h.1,
      ))

prefix-IsAscii : (n : ℕ) (s : String) → IsAscii s → IsAscii (prefix n s)
unfolding prefix
prefix-IsAscii n [] h = tt
prefix-IsAscii n (c ∷ s) h = elim (Bool-cases (leb (len_utf8 c) n)) [
  | inl fits ↦ rw fits (h.0, prefix-IsAscii (n - len_utf8 c) s h.1)
  | inr over ↦ rw over tt
]

-- A slug has at most 100 bytes in UTF-8, whatever the name, where the random text is ASCII and
-- lowering takes ASCII to ASCII.
pub len-generate_slug :
    (u : Unicode) (name random : String)
    → LowersAscii u
    → IsAscii random
    → len (generate_slug u name random) ≤ 100
unfolding generate_slug slug_base
len-generate_slug u name random lowers ascii = omega (
  arith,
  len-append (slug_base u name) (String.◌++◌ dash (to_lower u (prefix 6 random))),
  len-append dash (to_lower u (prefix 6 random)),
  len-cut_base (
      trim_dash_right (
        trim_dash_left
          (collapse (drop_invalid (join_fields false false (to_lower u (trim_space name))))))),
  len-to_lower u (prefix 6 random) lowers (prefix-IsAscii 6 random ascii),
  len-prefix 6 random,
)
