-- ===== src/AccessKey.antt =====
-- internal/accesskey/key.go: the check of an access key. Reading the key file is not modelled.
use spacechat.Prelude.{
  ◌≡◌, ◌≤◌, ◌↔◌, true, false, not, ◌||◌, [], ◌∷◌, Text, text_eq, text_eq_iff, ltb, all, length,
  if◌then◌else◌, Result, ok, err, refuse, ◌>>◌, arith,
}
use spacechat.Unicode.{is_control, is_space, valid_string, trim_space}
use spacechat.Unicode.Trim.{trim_space-nil}

pub data KeyError : Type 0 where
  bad_key control_character : KeyError

check_key : Text → Result KeyError (Unit {0})
check_key [] = ok tt
check_key (c ∷ s) = if is_control c then err control_character else check_key s

unfoldable pub validate_key : Text → Result KeyError (Unit {0})
unfolding check_key
validate_key key = do
  refuse (text_eq (trim_space key) [] || ltb 256 (length key) || not (valid_string key)) bad_key
  check_key key

check_key-all : (s : Text) → (check_key s ≡ ok tt) ↔ (all (λ c. not (is_control c)) s ≡ true)
unfolding check_key
check_key-all [] = ground arith
check_key-all (c ∷ s) = ground (arith, check_key-all s)

-- A key is accepted exactly when it is not blank, has at most 256 characters, is UTF-8 and holds no
-- control character.
pub validate_key-ok :
    (key : Text)
    → (validate_key key ≡ ok tt) ↔ (
        (all is_space key ≡ false)
        × (length key ≤ 256)
        × (valid_string key ≡ true)
        × (all (λ c. not (is_control c)) key ≡ true))
unfolding validate_key
validate_key-ok key =
    ground (arith, text_eq_iff (trim_space key) [], trim_space-nil key, check_key-all key)
