-- ===== src/Server/Backend.antt =====
-- What a connection's `Repository` is: the plain store of a server with one room, or one room of the
-- encrypted store.
use spacechat.Prelude.{ℕ, Bool, true, false, List, Text, Result, ok, err}
use spacechat.Prelude.Int.{ℤ}
use spacechat.Protocol.Frames.{Message, Page}
use spacechat.Store
use spacechat.SecureStore
use spacechat.SecureStore.Sealing.{Codec}
use spacechat.SecureStore.{Fails}

pub data Backend (Cipher : Type 0) : Type 0 where
  plain : Store.Store → Backend Cipher
  rooms : SecureStore.Store Cipher → Backend Cipher

pub data RepositoryError : Type 0 where
  plain_error : Store.StoreError → RepositoryError
  room_error : SecureStore.StoreError → RepositoryError

abbrev from_plain {ℓ} : {A : Type ℓ} → Result Store.StoreError A → Result RepositoryError A
from_plain (ok a) = ok a
from_plain (err e) = err (plain_error e)

abbrev from_room {ℓ} : {A : Type ℓ} → Result SecureStore.StoreError A → Result RepositoryError A
from_room (ok a) = ok a
from_room (err e) = err (room_error e)

module _ {Cipher : Type 0} where
  -- `InstanceID`
  unfoldable pub instance_id : Text → Backend Cipher → Text
  instance_id room (plain s) = s.instance
  instance_id room (rooms s) = SecureStore.instance_id room s

  -- `LatestID`
  unfoldable pub latest_id : Text → Fails → Backend Cipher → Result RepositoryError ℕ
  latest_id room fails (plain s) = from_plain (Store.latest_id fails s)
  latest_id room fails (rooms s) = from_room (SecureStore.latest_id room fails s)

  -- Whether `repository.(*securestore.Room)` succeeds.
  abbrev pub is_rooms : Backend Cipher → Bool
  is_rooms (plain s) = false
  is_rooms (rooms s) = true

  abbrev pub plain_append :
      Result Store.StoreError Message × Store.Store
      → Result RepositoryError Message × Backend Cipher
  plain_append (r, s) = (from_plain r, plain s)

  abbrev pub room_result :
      SecureStore.Store Cipher
      → Result SecureStore.StoreError (Message × SecureStore.Store Cipher)
      → Result RepositoryError Message × Backend Cipher
  room_result s (ok (m, s')) = (ok m, rooms s')
  room_result s (err e) = (err (room_error e), rooms s)

module _ (codec : Codec) where
  open codec use {Cipher, Nonce}

  -- `Page`
  unfoldable pub page : Text → ℤ → ℤ → ℕ → Fails → Backend Cipher → Result RepositoryError Page
  page room before after through fails (plain s) =
      from_plain (Store.page before after through fails s)
  page room before after through fails (rooms s) =
      from_room (SecureStore.page codec room before after through fails s)

  -- `AppendChat` of a room, `Append` of the plain store. The store afterwards is there on an error too.
  unfoldable pub append :
      Text
      → Text
      → Text
      → Text
      → List Text
      → ℕ
      → Nonce
      → Fails
      → Backend Cipher
      → Result RepositoryError Message × Backend Cipher
  append room name body owner mentions now nonce fails (plain s) =
      plain_append (Store.append name body now fails s)
  append room name body owner mentions now nonce fails (rooms s) =
      room_result s (SecureStore.append_chat codec room name body owner mentions now nonce fails s)
