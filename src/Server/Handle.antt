-- ===== src/Server/Handle.antt =====
-- `handle` of server.go and `recall` of recall.go: what a server does with a frame of a connection.
pub mod Publish
unfoldable pub use Publish.*
use spacechat.Prelude.{
  ℕ, ◌||◌, not, List, [], map, Option, none, some, Text, text_eq, ltb, ◌==◌, if◌then◌else◌, Result,
  ok, err,
}
use spacechat.Prelude.Int.{ℤ, pos, negsuc, leb_ℤ, eq_ℤ}
use spacechat.Unicode.{byte_len}
use spacechat.Protocol.Frames.{
  Message, Page, Frame, Failure, Code, Request, Query, encode, page, message, recalled, failure,
  storage_error, invalid_cursor, invalid_request, syncing, invalid_message, unsupported,
  recall_denied, recall_expired,
}
use spacechat.Protocol.Frames
use spacechat.Protocol.Validate.{TextError, validate_body}
use spacechat.Protocol.Mentions.{find_mentions}
use spacechat.Pages.{last_id}
use spacechat.SecureStore.Sealing.{Codec}
use spacechat.SecureStore
use spacechat.Server.Backend
use spacechat.Server.Backend.{Backend, plain, rooms, room_error, plain_error}
use spacechat.Server.Session.{Session, cancel, enqueue, deliver, finish_sync}
use spacechat.Server.State.{Server, Env, users, modify, session_at, visible_message, visible_page}

module _ (codec : Codec) where
  open codec use {Cipher, Nonce}

  -- After the message was given to the repository.
  unfoldable pub saved :
      Env Nonce
      → ℕ
      → Session
      → Text
      → Server Cipher
      → Result Backend.RepositoryError Message × Backend Cipher
      → Server Cipher
  saved env id client request_id service (err e, b) =
      fail id request_id storage_error (record service { backend = b })
  saved env id client request_id service (ok m, b) =
      publish env id client.room request_id m (record service { backend = b })

  unfoldable pub send_checked :
      Env Nonce
      → ℕ
      → Session
      → Text
      → Server Cipher
      → Text
      → Result TextError (Unit {0})
      → Server Cipher
  send_checked env id client request_id service body (err e) =
      fail id request_id invalid_message service
  send_checked env id client request_id service body (ok _) =
      saved env id client request_id service (
        Backend.append codec client.room client.name body client.owner
          (find_mentions env.tables body (users client.room service.sessions)) env.now env.nonce
          (env.fails 0) service.backend)

  unfoldable pub send_body :
      Env Nonce → ℕ → Session → Text → Server Cipher → Option Text → Server Cipher
  send_body env id client request_id service none = fail id request_id invalid_message service
  send_body env id client request_id service (some body) =
      send_checked env id client request_id service body (validate_body body)

  -- The case "send".
  unfoldable pub send : Env Nonce → ℕ → Session → Request → Server Cipher → Server Cipher
  send env id client request service =
      if client.syncing
      then fail id request.request_id syncing service
      else send_body env id client request.request_id service request.payload.as_send

  unfoldable pub recalled_in :
      ℕ
      → Session
      → Text
      → Server Cipher
      → Result SecureStore.StoreError (Message × SecureStore.Store Cipher)
      → Server Cipher
  recalled_in id client request_id service (err e) = fail id request_id (recall_code e) service
  recalled_in id client request_id service (ok (m, s')) =
      publish_recall id client.room request_id m (SecureStore.instance_id client.room s')
        (record service { backend = rooms s' })

  unfoldable pub recall_in :
      Env Nonce → ℕ → Session → Text → Server Cipher → ℤ → Backend Cipher → Server Cipher
  recall_in env id client request_id service number (plain s) =
      fail id request_id unsupported service
  recall_in env id client request_id service number (rooms s) =
      recalled_in id client request_id service (
        SecureStore.recall codec client.room number client.owner env.now env.epoch env.nonce
          (env.fails 0) s)

  unfoldable pub recall_number :
      Env Nonce → ℕ → Session → Text → Server Cipher → Option ℤ → Server Cipher
  recall_number env id client request_id service none = fail id request_id invalid_request service
  recall_number env id client request_id service (some number) =
      if leb_ℤ number (pos 0)
      then fail id request_id invalid_request service
      else recall_in env id client request_id service number service.backend

  -- `recall`
  unfoldable pub recall : Env Nonce → ℕ → Session → Request → Server Cipher → Server Cipher
  recall env id client request service =
      if client.syncing
      then fail id request.request_id syncing service
      else recall_number env id client request.request_id service request.payload.as_recall

  unfoldable pub history_shown :
      Env Nonce → ℕ → Text → Server Cipher → Result Backend.RepositoryError Page → Server Cipher
  history_shown env id request_id service (err e) = fail id request_id storage_error service
  history_shown env id request_id service (ok p) =
      on_session id
        (λ c. enqueue (encode Frames.Kind.history request_id (page (visible_page env.now c p))) c)
        service

  unfoldable pub history_from :
      Env Nonce
      → ℕ
      → Session
      → Text
      → Server Cipher
      → Query
      → Result Backend.RepositoryError ℕ
      → Server Cipher
  history_from env id client request_id service query (err e) =
      fail id request_id storage_error service
  history_from env id client request_id service query (ok latest) =
      history_shown env id request_id service (
        Backend.page codec client.room query.before_id (pos 0) latest (env.fails 1) service.backend)

  unfoldable pub history_query :
      Env Nonce → ℕ → Session → Text → Server Cipher → Option Query → Server Cipher
  history_query env id client request_id service none = fail id request_id invalid_cursor service
  history_query env id client request_id service (some query) =
      if leb_ℤ query.before_id (pos 0) || not (eq_ℤ query.after_id (pos 0))
      then fail id request_id invalid_cursor service
      else history_from env id client request_id service query
          (Backend.latest_id client.room (env.fails 0) service.backend)

  -- The case "history".
  unfoldable pub history : Env Nonce → ℕ → Session → Request → Server Cipher → Server Cipher
  history env id client request service =
      if client.syncing
      then fail id request.request_id syncing service
      else history_query env id client request.request_id service request.payload.as_query

  unfoldable pub synced :
      Env Nonce → ℕ → Text → Server Cipher → Result Backend.RepositoryError Page → Server Cipher
  synced env id request_id service (err e) =
      on_session id (λ c. cancel (enqueue (error_frame request_id storage_error) c)) service
  synced env id request_id service (ok p) = on_session id (push_sync env request_id p) service

  unfoldable pub sync_query :
      Env Nonce → ℕ → Session → Text → Server Cipher → Option Query → Server Cipher
  sync_query env id client request_id service none = fail id request_id invalid_cursor service
  sync_query env id client request_id service (some query) =
      if not (eq_ℤ query.after_id (pos client.cursor)) || not (eq_ℤ query.before_id (pos 0))
      then fail id request_id invalid_cursor service
      else synced env id request_id service (
          Backend.page codec client.room (negsuc 0) query.after_id client.through (env.fails 0)
            service.backend)

  -- The case "sync".
  unfoldable pub sync : Env Nonce → ℕ → Session → Request → Server Cipher → Server Cipher
  sync env id client request service =
      if not client.syncing
      then service
      else sync_query env id client request.request_id service request.payload.as_query

  -- The `switch` on the frame's type.
  unfoldable pub dispatch :
      Env Nonce → ℕ → Session → Request → Frames.Kind → Server Cipher → Server Cipher
  dispatch env id client request Frames.Kind.send service = send env id client request service
  dispatch env id client request Frames.Kind.recall service = recall env id client request service
  dispatch env id client request Frames.Kind.history service = history env id client request service
  dispatch env id client request Frames.Kind.sync service = sync env id client request service
  dispatch env id client request _ service = fail id request.request_id invalid_request service

  -- `handle`, for a connection as it stands in the map.
  unfoldable pub handle_client : Env Nonce → ℕ → Session → Request → Server Cipher → Server Cipher
  handle_client env id client request service =
      if service.closed || client.cancelled
      then service
      else if ltb 128 (byte_len request.request_id)
      then fail id request.request_id invalid_request service
      else dispatch env id client request request.kind service

  unfoldable pub handle_found :
      Env Nonce → ℕ → Request → Server Cipher → Option Session → Server Cipher
  handle_found env id request service none = service
  handle_found env id request service (some client) = handle_client env id client request service

  -- `handle`; a connection is in the map from its join until it leaves.
  unfoldable pub handle : Env Nonce → ℕ → Request → Server Cipher → Server Cipher
  handle env id request service =
      handle_found env id request service (session_at id service.sessions)
