-- ===== src/SecureStore.antt =====
-- internal/securestore: the encrypted store of the rooms. The database is its tables, the messages in the order of
-- their ids; a call of it fails where `fails` says so, each call of an operation under its own
-- number, and a transaction that fails leaves the tables as they were. Random bytes and the time
-- are arguments.
pub mod Sealing
pub mod Reading
pub mod Append
pub mod Recall
pub mod RecallResult
pub mod Examples
pub mod Database
unfoldable pub use Database.*
use spacechat.Prelude.{
  ℕ, suc, ◌+◌, ◌-◌, ◌≤◌, max, Bool, true, false, ◌&&◌, ◌||◌, not, List, [], ◌∷◌, ◌++◌, map, Option,
  none, some, Text, codes, text_eq, ltb, leb, ◌==◌, if◌then◌else◌, filter, length, any, Result, ok,
  err, ◌>>=◌, ◌>>◌, refuse, or_error,
}
use spacechat.Prelude.Int.{ℤ, pos, negsuc}
use spacechat.Decimal.{print}
use spacechat.Protocol.Frames.{Message, Page, Timestamp, at, parse_time, recall_window}
use spacechat.Pages.{query, finish, is_ascending}
use spacechat.Prelude.TextMap.{find, put}
use spacechat.AccessKey.{validate_key}
use Sealing.{Codec, Content}

module _ (codec : Codec) where
  open codec use {
    Cipher, Nonce, Plain, seal, unseal, marshal_content, unmarshal_content, print_time,
  }

  -- `room.aad`
  unfoldable pub aad : Text → ℕ → Timestamp → Text
  aad room id created =
      codes "xchat-message/v1/" ++ (room ++ b'/' ∷ (print id ++ b'/' ∷ print_time created))

  -- Opening and decoding the payload of a row.
  unfoldable pub read_content : Text → Row Cipher → Result StoreError Content
  read_content room r = do
    plain ← or_error (unseal r.payload (aad room r.id r.created_at)) corrupt
    or_error (unmarshal_content plain) malformed

  unfoldable pub read_row : Text → Row Cipher → Result StoreError Message
  read_row room r = do c ← read_content room r; ok (message_of r.id r.created_at c)

  -- The loop of `Page` over the rows.
  unfoldable pub read_rows : Text → List (Row Cipher) → Result StoreError (List Message)
  read_rows room [] = ok []
  read_rows room (r ∷ rows) = do m ← read_row room r; ms ← read_rows room rows; ok (m ∷ ms)

  -- `Room.Page`
  unfoldable pub page : Text → ℤ → ℤ → ℕ → Fails → Store Cipher → Result StoreError Page
  page room before after through fails s = do
    refuse (fails 0) database
    found ←
        read_rows room
          (query (λ r. r.id) before after through (filter (is_in room) s.tables.messages))
    refuse (fails 1) database
    ok (finish (is_ascending before after) through found)

  -- `Room.AppendChat`
  unfoldable pub append_chat :
      Text
      → Text
      → Text
      → Text
      → List Text
      → ℕ
      → Nonce
      → Fails
      → Store Cipher
      → Result StoreError (Message × Store Cipher)
  append_chat room name body owner mentions now nonce fails s = do
    let c : Content = record {
      nickname = name;
      body = body;
      owner_id = owner;
      mentions = mentions;
      recalled = false;
    }
    refuse (fails 0) database
    refuse (fails 1) database
    let t = insert_room room s.tables
    refuse (fails 2) database
    let id = t.next_id
    refuse (fails 3) database
    let r : Row Cipher = record {
      id = id;
      room_id = room;
      payload = seal nonce (marshal_content c) (aad room id (at now));
      created_at = at now;
    }
    refuse (fails 4) database
    refuse (fails 5) database
    ok (
      message_of id (at now) c,
      record s { tables = record t { messages = t.messages ++ r ∷ []; next_id = suc id } },
    )

  -- What `Recall` writes, once it may.
  unfoldable pub erase : Text → Row Cipher → Content → Text → Nonce → Store Cipher → Store Cipher
  erase room r c epoch nonce s =
      let t = s.tables in
      let blank : Content = record c { body = []; mentions = []; recalled = true } in
      let payload = seal nonce (marshal_content blank) (aad room r.id r.created_at) in
      record s {
        tables = record t {
          messages = update_payload room r.id payload t.messages;
          epochs = put room epoch t.epochs;
        };
        epochs = put room epoch s.epochs;
      }

  -- `Room.Recall`. Message numbers are positive, so another integer finds no row.
  unfoldable pub recall :
      Text
      → ℤ
      → Text
      → ℕ
      → Text
      → Nonce
      → Fails
      → Store Cipher
      → Result StoreError (Message × Store Cipher)
  recall room (negsuc n) owner now epoch nonce fails s = do
    refuse (fails 0) database
    refuse (fails 1) database
    err recall_denied
  recall room (pos id) owner now epoch nonce fails s = do
    refuse (fails 0) database
    refuse (fails 1) database
    r ← or_error (find_row room id s.tables.messages) recall_denied
    c ← read_content room r
    refuse (text_eq owner [] || not (text_eq c.owner_id owner)) recall_denied
    if c.recalled then ok (recalled_message r c, s) else do
      created ← or_error (parse_time r.created_at) bad_time
      refuse (ltb recall_window (now - created)) recall_expired
      refuse (fails 2) database
      refuse (fails 3) database
      refuse (fails 4) database
      ok (recalled_message r c, erase room r c epoch nonce s)
