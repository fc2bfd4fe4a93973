-- ===== src/Protocol/MentionLaws.antt =====
-- What `FindMentions` finds.
use spacechat.Prelude.{
  ℕ, zero, suc, ◌≡◌, refl, ◌∙◌, true, not, ◌&&◌, List, [], ◌∷◌, Option, none, some, arith, Text,
  ◌==◌, all, length, All, All-append, Bool-cases, inl, inr,
}
use spacechat.Prelude.TextList.{contains, Distinct, Distinct-snoc}
use spacechat.Unicode.{Tables, valid_string}
use spacechat.Protocol.Mentions.{
  runes, mention_word, mention_text, word, name_at, add_mention, is_boundary, find_from,
  find_mentions,
}

-- Members of `users`, each once.
pub record Mentioned (users found : List Text) : Type 0 where
  pub members : All (λ n. contains users n ≡ true) found
  pub distinct : Distinct found

module _ (tables : Tables) (users : List Text) where
  add_mention-Mentioned :
      (name : Text) (found : List Text)
      → Mentioned users found
      → Mentioned users (add_mention users name found)
  unfolding add_mention
  add_mention-Mentioned name found v =
      elim (Bool-cases (contains users name && not (contains found name))) [
        | inl new ↦ rw new (record {
          members = All-append _ found (name ∷ []) v.members (ground arith, tt);
          distinct = Distinct-snoc found name v.distinct (ground arith);
        })
        | inr old ↦ rw old v
      ]

  find_from-Mentioned :
      (skip : ℕ) (previous : Option ℕ) (found : List Text) (s : Text)
      → Mentioned users found
      → Mentioned users (find_from tables users skip previous found s)
  unfolding find_from
  find_from-Mentioned skip previous found [] v = v
  find_from-Mentioned (suc skip) previous found (r ∷ rest) v =
      find_from-Mentioned skip (some r) found rest v
  find_from-Mentioned zero previous found (r ∷ rest) v =
      elim (Bool-cases (r == b'@' && is_boundary tables previous)) [
        | inl hit ↦ rw hit (
            find_from-Mentioned _ (some r) _ rest
              (add_mention-Mentioned (name_at tables rest).0 found v))
        | inr pass ↦ rw pass (find_from-Mentioned 0 (some r) found rest v)
      ]

  -- Whatever the body is, only members are mentioned, and none twice.
  pub find_mentions-Mentioned : (body : Text) → Mentioned users (find_mentions tables body users)
  unfolding find_mentions
  find_mentions-Mentioned body =
      find_from-Mentioned 0 none [] (runes body) (record { members = tt; distinct = tt })

module _ (tables : Tables) where
  word-all : (s : Text) → all (mention_word tables) s ≡ true → word tables s ≡ s
  unfolding word
  word-all [] h = refl
  word-all (c ∷ s) h = ground (arith, word-all s)

  runes_valid : (s : Text) → valid_string s ≡ true → runes s ≡ s
  unfolding runes valid_string
  runes_valid [] h = refl
  runes_valid (c ∷ s) h = ground (arith, runes_valid s)

  -- A word begins with no bracket.
  name_at-word : (s : Text) → all (mention_word tables) s ≡ true → name_at tables s ≡ (s, length s)
  unfolding name_at
  name_at-word [] h = unfold word in refl
  name_at-word (r ∷ s) h = elim (Bool-cases (r == b'[')) [
    | inl bracket ↦ absurd (unfold mention_word in ground (arith, tables.bracket_plain))
    | inr plain ↦ rw (plain, word-all (r ∷ s) h)
  ]

  find_from-skip :
      (users found : List Text) (previous : Option ℕ) (t : Text)
      → find_from tables users (length t) previous found t ≡ found
  unfolding find_from
  find_from-skip users found previous [] = refl
  find_from-skip users found previous (r ∷ t) = find_from-skip users found (some r) t

  find_from_at :
      (users : List Text) (t : Text)
      → find_from tables users 0 none [] (b'@' ∷ t)
        ≡ find_from tables users
            (name_at tables t).1
            (some b'@')
            (add_mention users (name_at tables t).0 [])
            t
  unfolding find_from is_boundary
  find_from_at users t = refl

  add_mention_first :
      (name : Text) (users : List Text)
      → contains users name ≡ true
      → add_mention users name [] ≡ name ∷ []
  unfolding add_mention
  add_mention_first name users member = rw member

  -- A member whose name is UTF-8 and made of letters, digits and underscores is found, and nobody else,
  -- in the mention that is written for it.
  pub find_mentions-mention_text :
      (name : Text) (users : List Text)
      → all (mention_word tables) name ≡ true
      → valid_string name ≡ true
      → contains users name ≡ true
      → find_mentions tables (mention_text tables name) users ≡ name ∷ []
  unfolding find_mentions mention_text
  find_mentions-mention_text name users words valid member =
      rw (words, runes_valid (b'@' ∷ name) (unfold valid_string in valid))
        (find_from_at users name
          ∙ rw (name_at-word name words, add_mention_first name users member)
              (find_from-skip users (name ∷ []) (some b'@') name))
