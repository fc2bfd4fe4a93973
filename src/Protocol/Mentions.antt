-- ===== src/Protocol/Mentions.antt =====
-- internal/protocol/mentions.go
use spacechat.Prelude.{
  ℕ, zero, suc, Bool, true, not, ◌&&◌, ◌||◌, List, [], ◌∷◌, ◌++◌, map, Option, none, some, Text,
  ltb, ◌==◌, if◌then◌else◌, all, length,
}
use spacechat.Prelude.TextList.{contains}
use spacechat.Unicode.{Tables}
use spacechat.Protocol.Json.{marshal_name, decode_names}

-- `[]rune(body)`: a byte that is not UTF-8 becomes U+FFFD.
unfoldable pub runes : Text → Text
runes = map λ c. if ltb c 0x110000 then c else 0xfffd

unfoldable pub one_name : Option (List Text × ℕ) → Text × ℕ
one_name (some (name ∷ [], consumed)) = (name, consumed)
one_name _ = ([], 0)

unfoldable pub add_mention : List Text → Text → List Text → List Text
add_mention users name found =
    if contains users name && not (contains found name) then found ++ name ∷ [] else found

module _ (tables : Tables) where
  unfoldable pub mention_word : ℕ → Bool
  mention_word r = tables.is_letter r || tables.is_number r || r == b'_'

  unfoldable pub mention_text : Text → Text
  mention_text name = b'@' ∷ (if all mention_word name then name else marshal_name name)

  -- The loop that takes the characters of a word.
  unfoldable pub word : Text → Text
  word [] = []
  word (r ∷ rest) = let more = word rest in if mention_word r then r ∷ more else []

  -- The name behind an `@`, and the number of characters that it takes.
  unfoldable pub name_at : Text → Text × ℕ
  name_at [] = (word [], length (word []))
  name_at (r ∷ rest) =
      if r == b'['
      then one_name (decode_names (r ∷ rest))
      else (word (r ∷ rest), length (word (r ∷ rest)))

  -- Whether the character before an `@` lets it begin a mention.
  unfoldable pub is_boundary : Option ℕ → Bool
  is_boundary none = true
  is_boundary (some previous) = not (mention_word previous || previous == b'@')

  -- The loop of `FindMentions`: `skip` characters are behind the last mention still to pass.
  unfoldable pub find_from : List Text → ℕ → Option ℕ → List Text → Text → List Text
  find_from users skip previous found [] = found
  find_from users (suc skip) previous found (r ∷ rest) = find_from users skip (some r) found rest
  find_from users zero previous found (r ∷ rest) =
      let hit = r == b'@' && is_boundary previous in
      find_from users (if hit then (name_at rest).1 else 0) (some r)
        (if hit then add_mention users (name_at rest).0 found else found) rest

  unfoldable pub find_mentions : Text → List Text → List Text
  find_mentions body users = find_from users 0 none [] (runes body)
