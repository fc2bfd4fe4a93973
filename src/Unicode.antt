-- ===== src/Unicode.antt =====
-- What the program uses of Go's unicode, unicode/utf8 and strings. Letters and numbers are large
-- tables and stay a parameter, `Tables`.
pub mod Trim
use spacechat.Prelude.{
  ℕ, suc, ◌+◌, ◌≡◌, refl, true, false, Bool, ◌&&◌, ◌||◌, List, [], ◌∷◌, ◌++◌, arith, Text, ltb, leb,
  ◌==◌, all, if◌then◌else◌,
}

-- Code points from `lo` to `hi`.
abbrev within : ℕ → ℕ → ℕ → Bool
within lo hi c = leb lo c && leb c hi

-- `unicode.IsControl`
unfoldable pub is_control : ℕ → Bool
is_control c = ltb c 0x20 || within 0x7f 0x9f c

-- `unicode.IsSpace`
unfoldable pub is_space : ℕ → Bool
is_space c =
    within 9 13 c
    || c == 0x20
    || c == 0x85
    || c == 0xa0
    || c == 0x1680
    || within 0x2000 0x200a c
    || within 0x2028 0x2029 c
    || c == 0x202f
    || c == 0x205f
    || c == 0x3000

-- `unicode.Is(unicode.Cf, c)`
unfoldable pub is_format : ℕ → Bool
is_format c =
    c == 0xad
    || within 0x600 0x605 c
    || c == 0x61c
    || c == 0x6dd
    || c == 0x70f
    || within 0x890 0x891 c
    || c == 0x8e2
    || c == 0x180e
    || within 0x200b 0x200f c
    || within 0x202a 0x202e c
    || within 0x2060 0x2064 c
    || within 0x2066 0x206f c
    || c == 0xfeff
    || within 0xfff9 0xfffb c
    || c == 0x110bd
    || c == 0x110cd
    || within 0x13430 0x1343f c
    || within 0x1bca0 0x1bca3 c
    || within 0x1d173 0x1d17a c
    || c == 0xe0001
    || within 0xe0020 0xe007f c

-- `utf8.ValidString`: no entry stands for a byte that is not UTF-8.
unfoldable pub valid_string : Text → Bool
valid_string = all λ c. ltb c 0x110000

-- The bytes of one entry of a text.
abbrev pub rune_len : ℕ → ℕ
rune_len c =
    if ltb c 0x80
    then 1
    else if ltb c 0x800
    then 2
    else if ltb c 0x10000
    then 3
    else if ltb c 0x110000
    then 4
    else 1

-- `len` of a string
unfoldable pub byte_len : Text → ℕ
byte_len [] = 0
byte_len (c ∷ s) = rune_len c + byte_len s

-- `strings.TrimSpace`
unfoldable pub trim_left : Text → Text
trim_left [] = []
trim_left (c ∷ s) = if is_space c then trim_left s else c ∷ s

unfoldable pub push_unless_blank : ℕ → Text → Text
push_unless_blank c [] = if is_space c then [] else c ∷ []
push_unless_blank c (d ∷ s) = c ∷ d ∷ s

unfoldable pub trim_right : Text → Text
unfolding push_unless_blank
trim_right [] = []
trim_right (c ∷ s) = push_unless_blank c (trim_right s)

unfoldable pub trim_space : Text → Text
unfolding trim_left trim_right
trim_space s = trim_right (trim_left s)

-- `strings.ReplaceAll(s, "\n", "")`
unfoldable pub without : ℕ → Text → Text
without c [] = []
without c (d ∷ s) = let rest = without c s in if d == c then rest else d ∷ rest

-- The tables of letters and of numbers, with what the program relies on.
pub record Tables : Type 0 where
  pub is_letter : ℕ → Bool
  pub is_number : ℕ → Bool
  pub at_plain : (is_letter b'@' || is_number b'@') ≡ false
  pub bracket_plain : (is_letter b'[' || is_number b'[') ≡ false
