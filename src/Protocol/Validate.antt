-- ===== src/Protocol/Validate.antt =====
-- `ValidateName`, `ValidateBody` and `validateText`.
use spacechat.Prelude.{
  ℕ, ◌≤◌, ◌≡◌, refl, Bool, true, ◌&&◌, ◌||◌, not, [], ◌∷◌, ◌↔◌, arith, Text, text_eq, text_eq_iff,
  ltb, all, if◌then◌else◌, length, Result, ok, err, refuse, ◌>>◌,
}
use spacechat.Unicode.{is_control, is_format, valid_string, trim_space, without}

pub data TextError : Type 0 where
  bad_name bad_body invalid_utf8 control_character : TextError

-- The loop of `validateText` over the characters.
unfoldable pub check_characters : Text → Result TextError (Unit {0})
check_characters [] = ok tt
check_characters (c ∷ s) =
    if is_control c || is_format c then err control_character else check_characters s

unfoldable pub validate_text : Text → Result TextError (Unit {0})
unfolding check_characters
validate_text text = do refuse (not (valid_string text)) invalid_utf8; check_characters text

unfoldable pub validate_name : Text → Result TextError (Unit {0})
unfolding validate_text
validate_name name = do
  refuse (not (text_eq name (trim_space name)) || ltb (length name) 1 || ltb 20 (length name))
      bad_name
  validate_text name

unfoldable pub validate_body : Text → Result TextError (Unit {0})
unfolding validate_text
validate_body body = do
  refuse (text_eq (trim_space body) [] || ltb 2000 (length body)) bad_body
  validate_text (without b'\n' body)

-- A character that a text may hold.
abbrev pub is_plain : ℕ → Bool
is_plain c = ltb c 0x110000 && not (is_control c || is_format c)

check_characters-all :
    (s : Text)
    → (check_characters s ≡ ok tt) ↔ (all (λ c. not (is_control c || is_format c)) s ≡ true)
unfolding check_characters
check_characters-all [] = ground arith
check_characters-all (c ∷ s) = ground (arith, check_characters-all s)

all-and : (p q : ℕ → Bool) (s : Text) → all (λ c. p c && q c) s ≡ all p s && all q s
all-and p q [] = refl
all-and p q (c ∷ s) = ground (arith, all-and p q s)

validate_text-all : (s : Text) → (validate_text s ≡ ok tt) ↔ (all is_plain s ≡ true)
unfolding validate_text valid_string
validate_text-all s = ground (
  arith,
  all-and (λ c. ltb c 0x110000) (λ c. not (is_control c || is_format c)) s,
  check_characters-all s,
)

-- A name is accepted exactly when trimming leaves it as it is, it has 1 to 20 characters, and each of them is plain.
pub validate_name-ok :
    (name : Text)
    → (validate_name name ≡ ok tt) ↔ (
        (trim_space name ≡ name)
        × (1 ≤ length name)
        × (length name ≤ 20)
        × (all is_plain name ≡ true))
unfolding validate_name
validate_name-ok name = ground (arith, text_eq_iff name (trim_space name), validate_text-all name)
