-- ===== src/Server/Session.antt =====
-- internal/server/session.go: one connection.
use spacechat.Prelude.{
  ℕ, Bool, true, false, List, [], ◌∷◌, ◌++◌, Text, text_eq, length, ltb, leb, if◌then◌else◌,
}
use spacechat.Protocol.Frames.{Frame, encode, sync_complete, complete}

-- `session`. `outgoing` is what its channel holds and `cancelled` whether its context is done; `id`
-- tells one connection from another, as its address does.
pub record Session : Type 0 where
  pub id : ℕ
  pub name : Text
  pub owner : Text
  pub room : Text
  pub syncing : Bool
  pub through : ℕ
  pub cursor : ℕ
  pub deferred : List Frame
  pub outgoing : List Frame
  pub cancelled : Bool

-- `make(chan protocol.Frame, 256)`
abbrev pub outgoing_capacity : ℕ
outgoing_capacity = 256

abbrev pub deferred_capacity : ℕ
deferred_capacity = 128

unfoldable pub cancel : Session → Session
cancel client = record client { cancelled = true }

unfoldable pub enqueue : Frame → Session → Session
unfolding cancel
enqueue frame client =
    if client.cancelled
    then client
    else if ltb (length client.outgoing) outgoing_capacity
    then record client { outgoing = client.outgoing ++ frame ∷ [] }
    else cancel client

unfoldable pub deliver : Frame → Session → Session
unfolding cancel
deliver frame client =
    if client.syncing
    then if leb deferred_capacity (length client.deferred)
      then cancel client
      else record client { deferred = client.deferred ++ frame ∷ [] }
    else enqueue frame client

-- The loop of `finishSync` over the deferred frames.
unfoldable pub enqueue_all : List Frame → Session → Session
enqueue_all [] client = client
enqueue_all (frame ∷ frames) client = enqueue_all frames (enqueue frame client)

-- `finishSync`
unfoldable pub finish_sync : Session → Session
finish_sync client =
    let told = enqueue (encode sync_complete [] (complete client.through)) client in
    let live = record told { syncing = false } in
    record (enqueue_all live.deferred live) { deferred = [] }

-- `sessionKey`
unfoldable pub session_key : Session → Text
session_key client = if text_eq client.room [] then client.name else client.room ++ 0 ∷ client.name
