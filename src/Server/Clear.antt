-- ===== src/Server/Clear.antt =====
-- `ClearHistory` of internal/server/cleanup.go. A connection in `sessions` has a repository.
use spacechat.Prelude.{ℕ, false, [], map, Text, codes, if◌then◌else◌, Result, ok, err}
use spacechat.Protocol.Frames.{Frame, Kind, at, encode, cleared}
use spacechat.Store
use spacechat.SecureStore
use spacechat.SecureStore.{Fails}
use spacechat.Server.Backend.{
  Backend, plain, rooms, RepositoryError, plain_error, room_error, is_rooms, instance_id,
}
use spacechat.Server.Session.{Session, enqueue}
use spacechat.Server.State.{Server, Env, announce}

pub data ClearError : Type 0 where
  shutting_down : ClearError
  not_cleared : RepositoryError → ClearError

module _ {Cipher : Type 0} where
  abbrev pub plain_cleared :
      Result Store.StoreError (ℕ × Store.Store) → Result RepositoryError (ℕ × Backend Cipher)
  plain_cleared (ok (n, s)) = ok (n, plain s)
  plain_cleared (err e) = err (plain_error e)

  abbrev pub rooms_cleared :
      Result SecureStore.StoreError (ℕ × SecureStore.Store Cipher)
      → Result RepositoryError (ℕ × Backend Cipher)
  rooms_cleared (ok (n, s)) = ok (n, rooms s)
  rooms_cleared (err e) = err (room_error e)

  -- `ClearAll` of the rooms, `Clear` of the plain store.
  unfoldable pub clear_backend :
      Text → Fails → Backend Cipher → Result RepositoryError (ℕ × Backend Cipher)
  clear_backend fresh fails (plain s) = plain_cleared (Store.clear fresh fails s)
  clear_backend fresh fails (rooms s) = rooms_cleared (SecureStore.clear_all fresh fails s)

  -- The event for a connection: a server with rooms does not tell how many messages there were.
  abbrev pub clear_event : ℕ → ℕ → Backend Cipher → Session → Frame
  clear_event now deleted backend client = encode (Kind.other (codes "history_cleared")) [] (
      cleared (record {
        instance_id = instance_id client.room backend;
        deleted = if is_rooms backend then 0 else deleted;
        created_at = at now;
      }))

  unfoldable pub clear_session : ℕ → ℕ → Backend Cipher → Session → Session
  clear_session now deleted backend client =
      enqueue (clear_event now deleted backend client)
        (record client { syncing = false; deferred = []; cursor = 0; through = 0 })

  unfoldable pub cleared_all :
      ℕ
      → Server Cipher
      → Result RepositoryError (ℕ × Backend Cipher)
      → Server Cipher × Result ClearError ℕ
  cleared_all now service (err e) = (service, err (not_cleared e))
  cleared_all now service (ok (deleted, backend)) = (
    record service {
      backend = backend;
      sessions = announce (map (clear_session now deleted backend) service.sessions);
    },
    ok deleted,
  )

  -- `ClearHistory`, with the number of messages that it reports.
  unfoldable pub clear_history :
      {Nonce : Type 0} → Env Nonce → Server Cipher → Server Cipher × Result ClearError ℕ
  clear_history env service =
      if service.closed
      then (service, err shutting_down)
      else cleared_all env.now service (clear_backend env.epoch (env.fails 0) service.backend)
