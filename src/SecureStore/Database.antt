-- ===== src/SecureStore/Database.antt =====
-- The tables of internal/securestore, and what its operations do with them without reading a payload.
use spacechat.Prelude.{
  ℕ, max, Bool, true, false, ◌&&◌, List, [], ◌∷◌, ◌++◌, Option, none, some, Text, text_eq, ◌==◌,
  if◌then◌else◌, length, any, Result, ok, err, ◌>>◌, refuse,
}
use spacechat.Protocol.Frames.{Message, Timestamp}
use spacechat.Prelude.TextMap.{find}
use spacechat.AccessKey.{validate_key}
use spacechat.SecureStore.Sealing.{Content}

pub data StoreError : Type 0 where
  database corrupt malformed bad_time recall_denied recall_expired invalid_key : StoreError

pub record Row (Cipher : Type 0) : Type 0 where
  pub id : ℕ
  pub room_id : Text
  pub payload : Cipher
  pub created_at : Timestamp

-- The tables. `next_id` is the counter of AUTOINCREMENT, which a deletion does not reset; `epochs`
-- are the metadata rows under 'recall_epoch/'.
pub record Tables (Cipher : Type 0) : Type 0 where
  pub rooms : List Text
  pub messages : List (Row Cipher)
  pub next_id : ℕ
  pub instance_id : Text
  pub epochs : List (Text × Text)

-- `Store`: the database, and what it caches of the metadata.
pub record Store (Cipher : Type 0) : Type 0 where
  pub tables : Tables Cipher
  pub instance : Text
  pub epochs : List (Text × Text)

abbrev pub message_of : ℕ → Timestamp → Content → Message
message_of id created c = record {
  id = id;
  nickname = c.nickname;
  body = c.body;
  created_at = created;
  mentions = c.mentions;
  recalled = c.recalled;
  can_recall = false;
  owner_id = c.owner_id;
}

abbrev pub Fails : Type 0
Fails = ℕ → Bool

unfoldable pub epoch_suffix : Option Text → Text
epoch_suffix none = []
epoch_suffix (some epoch) = b':' ∷ epoch

module _ {Cipher : Type 0} where
  abbrev pub is_in : Text → Row Cipher → Bool
  is_in room r = text_eq r.room_id room

  -- `SELECT COALESCE(MAX(id),0) FROM messages WHERE room_id=?`
  unfoldable pub max_id : Text → List (Row Cipher) → ℕ
  max_id room [] = 0
  max_id room (r ∷ rows) =
      let rest = max_id room rows in if is_in room r then max r.id rest else rest

  unfoldable pub latest_id : Text → Fails → Store Cipher → Result StoreError ℕ
  unfolding max_id
  latest_id room fails s = do refuse (fails 0) database; ok (max_id room s.tables.messages)

  -- `Room.InstanceID`
  unfoldable pub instance_id : Text → Store Cipher → Text
  unfolding epoch_suffix
  instance_id room s = s.instance ++ b':' ∷ (room ++ epoch_suffix (find room s.epochs))

  -- `INSERT OR IGNORE INTO rooms(id)`
  unfoldable pub insert_room : Text → Tables Cipher → Tables Cipher
  insert_room room t = if any (text_eq room) t.rooms then t else record t { rooms = room ∷ t.rooms }

  -- `Store.Room`; `mac` is the HMAC under the room key, in hexadecimal.
  unfoldable pub open_room :
      (Text → Text) → Text → Fails → Store Cipher → Result StoreError (Text × Store Cipher)
  open_room mac passphrase fails s = elim (validate_key passphrase) [
    | err e ↦ err invalid_key
    | ok _ ↦ do
      refuse (fails 0) database
      ok (mac passphrase, record s { tables = insert_room (mac passphrase) s.tables })
  ]

  -- `Store.ClearAll`: the number of messages that it deleted, beside the new state.
  unfoldable pub clear_all : Text → Fails → Store Cipher → Result StoreError (ℕ × Store Cipher)
  clear_all fresh fails s = do
    refuse (fails 0) database
    refuse (fails 1) database
    refuse (fails 2) database
    refuse (fails 3) database
    refuse (fails 4) database
    refuse (fails 5) database
    refuse (fails 6) database
    let t = s.tables
    ok (
      length t.messages,
      record {
        tables = record t { messages = []; rooms = []; epochs = []; instance_id = fresh };
        instance = fresh;
        epochs = [];
      },
    )

  -- `SELECT … WHERE room_id=? AND id=?`
  unfoldable pub find_row : Text → ℕ → List (Row Cipher) → Option (Row Cipher)
  find_row room id [] = none
  find_row room id (r ∷ rows) =
      let rest = find_row room id rows in if is_in room r && r.id == id then some r else rest

  -- `UPDATE messages SET payload=? WHERE room_id=? AND id=?`
  unfoldable pub update_payload : Text → ℕ → Cipher → List (Row Cipher) → List (Row Cipher)
  update_payload room id payload [] = []
  update_payload room id payload (r ∷ rows) =
      (if is_in room r && r.id == id then record r { payload = payload } else r)
      ∷ update_payload room id payload rows

  -- The part of a content that the answer to a recall shows.
  abbrev pub recalled_message : Row Cipher → Content → Message
  recalled_message r c = record {
    id = r.id;
    nickname = c.nickname;
    body = [];
    created_at = r.created_at;
    mentions = [];
    recalled = true;
    can_recall = false;
    owner_id = c.owner_id;
  }
