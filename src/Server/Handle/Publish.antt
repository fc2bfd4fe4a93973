-- ===== src/Server/Handle/Publish.antt =====
-- What the handlers of internal/server/server.go and recall.go send out: errors, messages to a room, pages.
use spacechat.Prelude.{ℕ, List, [], map, Text, text_eq, ◌==◌, if◌then◌else◌}
use spacechat.Protocol.Frames.{
  Message, Page, Frame, Failure, Code, Request, Query, encode, page, message, recalled, failure,
  storage_error, invalid_cursor, invalid_request, syncing, invalid_message, unsupported,
  recall_denied, recall_expired,
}
use spacechat.Protocol.Frames
use spacechat.Pages.{last_id}
use spacechat.SecureStore
use spacechat.Server.Session.{Session, enqueue, deliver, finish_sync}
use spacechat.Server.State.{Server, Env, modify, visible_message, visible_page}

-- The frame that `fail` puts in the queue.
abbrev pub error_frame : Text → Code → Frame
error_frame request_id code =
    encode Frames.Kind.error request_id (failure (record { code = code; minimum_version = [] }))

-- `requestID` of a broadcast: the request's own for the connection that made it.
abbrev pub reply_id : ℕ → Text → Session → Text
reply_id id request_id recipient = if recipient.id == id then request_id else []

-- A frame for every connection in a room.
unfoldable pub broadcast : Text → (Session → Frame) → List Session → List Session
broadcast room frame = map λ c. if text_eq c.room room then deliver (frame c) c else c

abbrev pub recall_code : SecureStore.StoreError → Code
recall_code SecureStore.StoreError.recall_denied = recall_denied
recall_code SecureStore.StoreError.recall_expired = recall_expired
recall_code _ = storage_error

module _ {Cipher : Type 0} where
  abbrev pub on_session : ℕ → (Session → Session) → Server Cipher → Server Cipher
  on_session id f service = record service { sessions = modify id f service.sessions }

  unfoldable pub fail : ℕ → Text → Code → Server Cipher → Server Cipher
  fail id request_id code = on_session id (enqueue (error_frame request_id code))

  -- The frames of a recall.
  unfoldable pub publish_recall : ℕ → Text → Text → Message → Text → Server Cipher → Server Cipher
  publish_recall id room request_id m instance service =
      let to = λ (c : Session).
        encode Frames.Kind.recalled (reply_id id request_id c)
          (recalled (record { message = m; instance_id = instance })) in
      record service { sessions = broadcast room to service.sessions }

module _ {Cipher Nonce : Type 0} where
  -- The frames of a message that was saved: to the room, then the acknowledgement.
  unfoldable pub publish : Env Nonce → ℕ → Text → Text → Message → Server Cipher → Server Cipher
  publish env id room request_id m service =
      let to = λ (c : Session).
        encode Frames.Kind.message (reply_id id request_id c)
          (message (visible_message env.now c m)) in
      let ack = λ (c : Session).
        enqueue (encode Frames.Kind.ack request_id (message (visible_message env.now c m))) c in
      on_session id ack (record service { sessions = broadcast room to service.sessions })

module _ {Nonce : Type 0} where
  -- A page of the synchronisation, and its end when there is no more.
  unfoldable pub push_sync : Env Nonce → Text → Page → Session → Session
  push_sync env request_id p client =
      let told =
        enqueue (encode Frames.Kind.sync request_id (page (visible_page env.now client p)))
          client in
      let moved = record told { cursor = last_id told.cursor p.messages } in
      if p.has_more then moved else finish_sync moved
