-- ===== src/SecureStore/Sealing.antt =====
-- What the encrypted store takes from Go's crypto/cipher, encoding/json and time.
use spacechat.Prelude.{◌≡◌, Bool, true, ◌&&◌, List, Option, some, Text, all}
use spacechat.Protocol.Frames.{Timestamp}
use spacechat.Unicode.{valid_string}

-- `content` of room.go
pub record Content : Type 0 where
  pub nickname : Text
  pub body : Text
  pub owner_id : Text
  pub mentions : List Text
  pub recalled : Bool

-- Every text of a content is UTF-8, as what JSON brought always is.
abbrev pub is_utf8 : Content → Bool
is_utf8 c =
    valid_string c.nickname
    && valid_string c.body
    && valid_string c.owner_id
    && all valid_string c.mentions

-- An AEAD opens what it sealed under the same additional data. JSON reads back what it wrote of
-- valid texts, and whatever it reads is valid.
pub record Codec : Type 1 where
  pub Cipher : Type 0
  pub Nonce : Type 0
  pub Plain : Type 0
  pub seal : Nonce → Plain → Text → Cipher
  pub unseal : Cipher → Text → Option Plain
  pub marshal_content : Content → Plain
  pub unmarshal_content : Plain → Option Content
  pub print_time : Timestamp → Text
  pub unseal-seal :
      (n : Nonce) (plain : Plain) (aad : Text) → unseal (seal n plain aad) aad ≡ some plain
  pub unmarshal-marshal :
      (c : Content) → is_utf8 c ≡ true → unmarshal_content (marshal_content c) ≡ some c
  pub unmarshal-valid : (p : Plain) {c : Content} → unmarshal_content p ≡ some c → is_utf8 c ≡ true
