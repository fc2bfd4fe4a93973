-- ===== src/Protocol/Json.antt =====
-- What mentions.go takes from encoding/json: a list of one string as text, and the reading of a list
-- of strings at the start of a text, by one step for each character.
use spacechat.Prelude.{
  ℕ, zero, suc, ◌+◌, ◌-◌, ◌*◌, ◌/◌, ◌%◌, Bool, ◌&&◌, ◌||◌, List, [], ◌∷◌, ◌++◌, Option, none, some,
  Text, codes, ltb, leb, ◌==◌, if◌then◌else◌,
}

hex_digit : ℕ → ℕ
hex_digit n = if ltb n 10 then b'0' + n else b'a' + (n - 10)

-- `\uXXXX`
unicode_escape : ℕ → Text
unfolding hex_digit
unicode_escape c =
    b'\\'
    ∷ b'u'
    ∷ hex_digit (c / 4096)
    ∷ hex_digit (c / 256 % 16)
    ∷ hex_digit (c / 16 % 16)
    ∷ hex_digit (c % 16)
    ∷ []

-- A character inside a string, as `json.Marshal` writes it.
pub escape : ℕ → Text
unfolding unicode_escape
escape c =
    if c == b'"' || c == b'\\'
    then b'\\' ∷ c ∷ []
    else if c == 8
    then b'\\' ∷ b'b' ∷ []
    else if c == 12
    then b'\\' ∷ b'f' ∷ []
    else if c == 10
    then b'\\' ∷ b'n' ∷ []
    else if c == 13
    then b'\\' ∷ b'r' ∷ []
    else if c == 9
    then b'\\' ∷ b't' ∷ []
    else if ltb c 0x20 || c == b'<' || c == b'>' || c == b'&' || c == 0x2028 || c == 0x2029
    then unicode_escape c
    else if ltb c 0x110000
    then c ∷ []
    else unicode_escape 0xfffd

pub escape_all : Text → Text
escape_all [] = []
escape_all (c ∷ s) = escape c ++ escape_all s

-- `json.Marshal([]string{name})`
unfoldable pub marshal_name : Text → Text
unfolding escape escape_all
marshal_name name = b'[' ∷ b'"' ∷ (escape_all name ++ b'"' ∷ b']' ∷ [])

-- Where the reading stands: before the list, before its first value, before another value, in a
-- string with what was read of it, behind a backslash, in the digits of `\u`, in `null` with what
-- is missing of it, or behind a value.
pub data Mode : Type 0 where
  start first value behind : Mode
  inside escaped : Text → Mode
  digits : ℕ → ℕ → Text → Mode
  nothing : Text → Mode

pub data Step : Type 0 where
  go : Mode → List Text → Step
  done fail : Step

is_blank : ℕ → Bool
is_blank c = c == 0x20 || c == 9 || c == 10 || c == 13

hex_value : ℕ → Option ℕ
hex_value c =
    if leb b'0' c && leb c b'9'
    then some (c - b'0')
    else if leb b'a' c && leb c b'f'
    then some (c - b'a' + 10)
    else if leb b'A' c && leb c b'F'
    then some (c - b'A' + 10)
    else none

-- The character that a backslash and `c` stand for.
unescape : ℕ → Option ℕ
unescape c =
    if c == b'"' || c == b'\\' || c == b'/'
    then some c
    else if c == b'b'
    then some 8
    else if c == b'f'
    then some 12
    else if c == b'n'
    then some 10
    else if c == b'r'
    then some 13
    else if c == b't'
    then some 9
    else none

is_high : ℕ → Bool
is_high c = leb 0xd800 c && ltb c 0xdc00

is_low : ℕ → Bool
is_low c = leb 0xdc00 c && ltb c 0xe000

-- Two escaped surrogates are one character, and a single one is U+FFFD.
join_surrogates : Text → Text
unfolding is_high is_low
join_surrogates [] = []
join_surrogates (c ∷ []) = (if is_high c || is_low c then 0xfffd else c) ∷ []
join_surrogates (c ∷ d ∷ s) =
    let pair = join_surrogates s in
    let one = join_surrogates (d ∷ s) in
    if is_high c && is_low d
    then (0x10000 + (c - 0xd800) * 0x400 + (d - 0xdc00)) ∷ pair
    else if is_high c || is_low c
    then 0xfffd ∷ one
    else c ∷ one

read_value : ℕ → List Text → Step
read_value c names =
    if c == b'"'
    then go (inside []) names
    else if c == b'n'
    then go (nothing (codes "ull")) names
    else fail

read_null : Text → ℕ → List Text → Step
read_null [] c names = fail
read_null (d ∷ []) c names = if c == d then go behind (names ++ [] ∷ []) else fail
read_null (d ∷ e ∷ left) c names = if c == d then go (nothing (e ∷ left)) names else fail

read_digit : ℕ → ℕ → Text → Option ℕ → List Text → Step
read_digit k n read none names = fail
read_digit zero n read (some d) names = go (inside (read ++ (n * 16 + d) ∷ [])) names
read_digit (suc k) n read (some d) names = go (digits k (n * 16 + d) read) names

pub step : Mode → List Text → ℕ → Step
unfolding is_blank hex_value unescape join_surrogates read_value read_null read_digit
step start names c =
    if is_blank c then go start names else if c == b'[' then go first names else fail
step first names c =
    if is_blank c then go first names else if c == b']' then done else read_value c names
step value names c = if is_blank c then go value names else read_value c names
step behind names c =
    if is_blank c
    then go behind names
    else if c == b','
    then go value names
    else if c == b']'
    then done
    else fail
step (inside read) names c =
    if c == b'"'
    then go behind (names ++ join_surrogates read ∷ [])
    else if c == b'\\'
    then go (escaped read) names
    else if ltb c 0x20
    then fail
    else go (inside (read ++ c ∷ [])) names
step (escaped read) names c =
    if c == b'u'
    then go (digits 3 0 read) names
    else (elim (unescape c) [ none ↦ fail | some d ↦ go (inside (read ++ d ∷ [])) names ])
step (digits k n read) names c = read_digit k n read (hex_value c) names
step (nothing left) names c = read_null left c names

-- The strings of the list, and the number of characters that it takes.
pub scan : Mode → List Text → ℕ → Text → Option (List Text × ℕ)
unfolding step
scan mode names count [] = none
scan mode names count (c ∷ s) = elim (step mode names c) [
  | go mode' names' ↦ scan mode' names' (suc count) s
  | done ↦ some (names, suc count)
  | fail ↦ none
]

-- `json.NewDecoder(…).Decode(&names)` and `InputOffset`
unfoldable pub decode_names : Text → Option (List Text × ℕ)
unfolding scan
decode_names = scan start [] 0
