-- ===== src/Server/Cases.antt =====
-- The ways in which `handle` can end, as a rule for what holds after it.
use spacechat.Prelude.{
  ℕ, ◌≡◌, refl, not, ◌||◌, Option, none, some, Text, ltb, if_intro, Result, ok, err,
}
use spacechat.Prelude.Int.{ℤ, pos, negsuc, leb_ℤ, eq_ℤ}
use spacechat.Unicode.{byte_len}
use spacechat.Protocol.Frames.{
  Message, Page, Request, Query, Code, syncing, storage_error, invalid_message, invalid_request,
  invalid_cursor, unsupported, encode,
}
use spacechat.Protocol.Frames
use spacechat.Protocol.Validate.{TextError, validate_body}
use spacechat.Protocol.Mentions.{find_mentions}
use spacechat.SecureStore.Sealing.{Codec}
use spacechat.SecureStore
use spacechat.Server.Backend
use spacechat.Server.Backend.{Backend, plain, rooms}
use spacechat.Server.Session.{Session, cancel, enqueue}
use spacechat.Server.State.{Server, Env, users, session_at, visible_page}
use spacechat.Server.Handle.{
  error_frame, on_session, fail, publish, publish_recall, push_sync, send, recall, history, sync,
  dispatch, handle_client, handle_found, handle, saved, send_checked, send_body, recall_code,
  recalled_in, recall_in, recall_number, history_shown, history_from, history_query, synced,
  sync_query,
}

-- What is to be shown of each end, for a connection and its request.
module _ (codec : Codec) where
  open codec use {Cipher, Nonce}

  pub record Ends {ℓ} (P : Server Cipher → Type ℓ) (env : Env Nonce) (id : ℕ) (client : Session)
      (request : Request) (service : Server Cipher) : Type ℓ where
    pub same : P service
    pub failed : (code : Code) → P (fail id request.request_id code service)
    pub unsaved :
        (body : Text) (e : Backend.RepositoryError) (b : Backend Cipher)
        → Backend.append codec client.room client.name body client.owner
            (find_mentions env.tables body (users client.room service.sessions))
            env.now
            env.nonce
            (env.fails 0)
            service.backend
          ≡ (err e, b)
        → P (fail id request.request_id storage_error (record service { backend = b }))
    pub saved :
        (body : Text) (m : Message) (b : Backend Cipher)
        → Backend.append codec client.room client.name body client.owner
            (find_mentions env.tables body (users client.room service.sessions))
            env.now
            env.nonce
            (env.fails 0)
            service.backend
          ≡ (ok m, b)
        → P (publish env id client.room request.request_id m (record service { backend = b }))
    pub withdrawn :
        (number : ℤ) (s s' : SecureStore.Store Cipher) (m : Message)
        → service.backend ≡ rooms s
        → SecureStore.recall codec client.room number client.owner env.now env.epoch env.nonce
            (env.fails 0)
            s
          ≡ ok (m, s')
        → P (
            publish_recall id client.room request.request_id m
              (SecureStore.instance_id client.room s')
              (record service { backend = rooms s' }))
    pub shown :
        (p : Page)
        → P (
            on_session id
              (λ c.
                enqueue
                  (encode Frames.Kind.history request.request_id
                    (Frames.page (visible_page env.now c p)))
                  c)
              service)
    pub dropped : P (
        on_session id
          (λ c. cancel (enqueue (error_frame request.request_id storage_error) c))
          service)
    pub synced : (p : Page) → P (on_session id (push_sync env request.request_id p) service)

  module _ {ℓ} (P : Server Cipher → Type ℓ) (env : Env Nonce) (id : ℕ) (client : Session)
      (request : Request) (service : Server Cipher)
      (ends : Ends P env id client request service) where
    saved_cases :
        (body : Text) (r : Result Backend.RepositoryError Message × Backend Cipher)
        → Backend.append codec client.room client.name body client.owner
            (find_mentions env.tables body (users client.room service.sessions))
            env.now
            env.nonce
            (env.fails 0)
            service.backend
          ≡ r
        → P (saved codec env id client request.request_id service r)
    unfolding saved
    saved_cases body (err e, b) h = ends.unsaved body e b h
    saved_cases body (ok m, b) h = ends.saved body m b h

    checked_cases :
        (body : Text) (r : Result TextError (Unit {0}))
        → P (send_checked codec env id client request.request_id service body r)
    unfolding send_checked
    checked_cases body (err e) = ends.failed invalid_message
    checked_cases body (ok u) = saved_cases body _ refl

    body_cases : (o : Option Text) → P (send_body codec env id client request.request_id service o)
    unfolding send_body
    body_cases none = ends.failed invalid_message
    body_cases (some body) = checked_cases body (validate_body body)

    send_cases : P (send codec env id client request service)
    unfolding send
    send_cases =
        if_intro P client.syncing (λ _. ends.failed syncing)
          (λ _. body_cases request.payload.as_send)

    recalled_cases :
        (number : ℤ) (s : SecureStore.Store Cipher)
        → service.backend ≡ rooms s
        → (r : Result SecureStore.StoreError (Message × SecureStore.Store Cipher))
        → SecureStore.recall codec client.room number client.owner env.now env.epoch env.nonce
            (env.fails 0)
            s
          ≡ r
        → P (recalled_in codec id client request.request_id service r)
    unfolding recalled_in
    recalled_cases number s b (err e) h = ends.failed (recall_code e)
    recalled_cases number s b (ok (m, s')) h = ends.withdrawn number s s' m b h

    recall_in_cases :
        (number : ℤ) (b : Backend Cipher)
        → service.backend ≡ b
        → P (recall_in codec env id client request.request_id service number b)
    unfolding recall_in
    recall_in_cases number (plain s) e = ends.failed unsupported
    recall_in_cases number (rooms s) e = recalled_cases number s e _ refl

    number_cases :
        (o : Option ℤ) → P (recall_number codec env id client request.request_id service o)
    unfolding recall_number
    number_cases none = ends.failed invalid_request
    number_cases (some number) =
        if_intro P (leb_ℤ number (pos 0)) (λ _. ends.failed invalid_request)
          (λ _. recall_in_cases number service.backend refl)

    recall_cases : P (recall codec env id client request service)
    unfolding recall
    recall_cases =
        if_intro P client.syncing (λ _. ends.failed syncing)
          (λ _. number_cases request.payload.as_recall)

    shown_cases :
        (r : Result Backend.RepositoryError Page)
        → P (history_shown codec env id request.request_id service r)
    unfolding history_shown
    shown_cases (err e) = ends.failed storage_error
    shown_cases (ok p) = ends.shown p

    from_cases :
        (query : Query) (r : Result Backend.RepositoryError ℕ)
        → P (history_from codec env id client request.request_id service query r)
    unfolding history_from
    from_cases query (err e) = ends.failed storage_error
    from_cases query (ok latest) = shown_cases _

    query_cases :
        (o : Option Query) → P (history_query codec env id client request.request_id service o)
    unfolding history_query
    query_cases none = ends.failed invalid_cursor
    query_cases (some query) =
        if_intro P (leb_ℤ query.before_id (pos 0) || not (eq_ℤ query.after_id (pos 0)))
          (λ _. ends.failed invalid_cursor)
          (λ _. from_cases query (Backend.latest_id client.room (env.fails 0) service.backend))

    history_cases : P (history codec env id client request service)
    unfolding history
    history_cases =
        if_intro P client.syncing (λ _. ends.failed syncing)
          (λ _. query_cases request.payload.as_query)

    synced_cases :
        (r : Result Backend.RepositoryError Page)
        → P (synced codec env id request.request_id service r)
    unfolding synced
    synced_cases (err e) = ends.dropped
    synced_cases (ok p) = ends.synced p

    sync_query_cases :
        (o : Option Query) → P (sync_query codec env id client request.request_id service o)
    unfolding sync_query
    sync_query_cases none = ends.failed invalid_cursor
    sync_query_cases (some query) =
        if_intro P
          (not (eq_ℤ query.after_id (pos client.cursor)) || not (eq_ℤ query.before_id (pos 0)))
          (λ _. ends.failed invalid_cursor)
          (λ _. synced_cases (
            Backend.page codec client.room (negsuc 0) query.after_id client.through (env.fails 0)
              service.backend))

    sync_cases : P (sync codec env id client request service)
    unfolding sync
    sync_cases =
        if_intro P (not client.syncing) (λ _. ends.same)
          (λ _. sync_query_cases request.payload.as_query)

    dispatch_cases : (kind : Frames.Kind) → P (dispatch codec env id client request kind service)
    unfolding dispatch
    dispatch_cases Frames.Kind.send = send_cases
    dispatch_cases Frames.Kind.recall = recall_cases
    dispatch_cases Frames.Kind.history = history_cases
    dispatch_cases Frames.Kind.sync = sync_cases
    dispatch_cases _ = ends.failed invalid_request

    pub client_cases : P (handle_client codec env id client request service)
    unfolding handle_client
    client_cases =
        if_intro P (service.closed || client.cancelled) (λ _. ends.same)
          λ _.
            if_intro P (ltb 128 (byte_len request.request_id)) (λ _. ends.failed invalid_request)
              (λ _. dispatch_cases request.kind)

  -- What holds of every way to end holds after `handle`.
  pub handle_cases {ℓ} :
      (P : Server Cipher → Type ℓ) (env : Env Nonce) (id : ℕ) (request : Request)
      (service : Server Cipher) (found : Option Session)
      → session_at id service.sessions ≡ found
      → P service
      → ((client : Session)
          → session_at id service.sessions ≡ some client
          → Ends P env id client request service)
      → P (handle codec env id request service)
  unfolding handle handle_found
  handle_cases P env id request service none e p ends = rw (e, handle_found) p
  handle_cases P env id request service (some client) e p ends =
      rw (e, handle_found) (client_cases P env id client request service (ends client e))
