-- ===== src/Client.antt =====
-- internal/client/client.go: what a client does with the frames that arrive, and with requests.
-- Numbers of messages are ℕ here: a server's are never negative.
pub mod Cursor
pub mod Reconnect
use spacechat.Prelude.{
  ℕ, max, Bool, true, false, ◌&&◌, ◌||◌, not, List, [], ◌∷◌, ◌++◌, Option, none, some, Text, codes,
  text_eq, ltb, ◌==◌, if◌then◌else◌, length, Result, ok, err, ◌>>=◌, ◌>>◌, refuse,
}
use spacechat.Prelude.Int.{ℤ, pos, leb_ℤ}
use spacechat.Protocol.Frames.{Message, Page, Query, Recalled, Failure, Code, Welcome, Kind}
use spacechat.Protocol.Validate.{TextError, validate_body}

-- What `decode` gives for a frame's payload, for each type it is asked for.
pub record Payloads : Type 0 where
  pub as_welcome : Option Welcome
  pub as_page : Option Page
  pub as_message : Option Message
  pub as_recalled : Option Recalled
  pub as_cleared : Option Text
  pub as_complete : Option ℕ
  pub as_failure : Option Failure
  pub as_presence : Option (List Text)

pub record Incoming : Type 0 where
  pub kind : Kind
  pub request_id : Text
  pub payload : Payloads

-- The frames that a client sends once it is connected.
pub data Outgoing : Type 0 where
  send : Text → Text → Outgoing
  history : ℤ → Outgoing
  recall : Text → ℤ → Outgoing
  sync : Query → Outgoing

pub data Event : Type 0 where
  frame : Incoming → Event
  connected : Event

pub data Stop : Type 0 where
  bad_payload cancelled empty_sync_page : Stop
  join_error : Code → Stop

-- `Client` with its active `link`. `events` is what was handed to the user interface.
pub record Network : Type 0 where
  pub instance : Text
  pub cursor : ℕ
  pub ever_connected : Bool
  pub ready : Bool
  pub alive : Bool
  pub welcomed : Bool
  pub outgoing : List Outgoing
  pub events : List Event

pub data QueueError : Type 0 where
  bad_body : TextError → QueueError
  bad_message_id not_connected queue_full : QueueError

-- `make(chan protocol.Frame, 64)`
abbrev pub link_capacity : ℕ
link_capacity = 64

unfoldable pub queue : Outgoing → Network → Result QueueError Network
queue request network = do
  refuse (not network.ready || not network.alive) not_connected
  refuse (not (ltb (length network.outgoing) link_capacity)) queue_full
  ok (record network { outgoing = network.outgoing ++ request ∷ [] })

abbrev pub or_body_error : Result TextError (Unit {0}) → Result QueueError (Unit {0})
or_body_error (ok u) = ok u
or_body_error (err e) = err (bad_body e)

-- `Send`, `History` and `Recall`
unfoldable pub request_send : Text → Text → Network → Result QueueError Network
request_send request_id body network = do
  or_body_error (validate_body body)
  queue (send request_id body) network

unfoldable pub request_history : ℤ → Network → Result QueueError Network
request_history before = queue (history before)

unfoldable pub request_recall : Text → ℤ → Network → Result QueueError Network
request_recall request_id number network = do
  refuse (leb_ℤ number (pos 0)) bad_message_id
  queue (recall request_id number) network

-- The loop over a page's messages.
unfoldable pub advance : ℕ → List Message → ℕ
advance cursor [] = cursor
advance cursor (m ∷ ms) = advance (max cursor m.id) ms

abbrev emit : Event → Network → Network
emit event network = record network { events = network.events ++ event ∷ [] }

abbrev need : {A : Type 0} → Option A → Network → Result (Stop × Network) A
need none network = err (bad_payload, network)
need (some a) network = ok a

-- The event goes to the user interface, unless the context ends before.
abbrev tell : Bool → Event → Network → Result (Stop × Network) Network
tell true event network = ok (emit event network)
tell false event network = err (cancelled, network)

-- The rest of a synchronisation, when a page has a successor. `pushes` says that the link takes the
-- frame before the context ends.
unfoldable pub ask_next : Bool → Page → Network → Result (Stop × Network) Network
ask_next pushes p network = do
  refuse (length p.messages == 0) (empty_sync_page, network)
  refuse (not pushes) (cancelled, network)
  ok (record network {
    outgoing =
        network.outgoing ++ sync (record { before_id = pos 0; after_id = pos network.cursor }) ∷ [];
  })

-- The cases "history" and "sync". `emits` says that the event is taken before the context ends.
unfoldable pub receive_page :
    Bool → Bool → Bool → Incoming → Network → Result (Stop × Network) Network
receive_page is_sync emits pushes arrived network = do
  p ← need arrived.payload.as_page network
  told ← tell emits (frame arrived) network
  let moved =
      if is_sync || text_eq arrived.request_id (codes "initial")
      then record told { cursor = advance told.cursor p.messages }
      else told
  if is_sync && p.has_more then ask_next pushes p moved else ok moved

unfoldable pub receive_welcome : Bool → Incoming → Network → Result (Stop × Network) Network
receive_welcome emits arrived network = do
  w ← need arrived.payload.as_welcome network
  tell emits (frame arrived) (record network {
    cursor = if w.resumed then network.cursor else 0;
    instance = w.instance_id;
    welcomed = true;
  })

unfoldable pub receive_message : Bool → Incoming → Network → Result (Stop × Network) Network
receive_message emits arrived network = do
  m ← need arrived.payload.as_message network
  told ← tell emits (frame arrived) network
  ok (record told { cursor = max told.cursor m.id })

unfoldable pub receive_recalled : Bool → Incoming → Network → Result (Stop × Network) Network
receive_recalled emits arrived network = do
  r ← need arrived.payload.as_recalled network
  told ← tell emits (frame arrived) network
  ok (record told { instance = r.instance_id })

unfoldable pub receive_cleared : Bool → Incoming → Network → Result (Stop × Network) Network
receive_cleared emits arrived network = do
  instance ← need arrived.payload.as_cleared network
  tell emits (frame arrived)
      (record network { instance = instance; cursor = 0; ever_connected = true; ready = true })

-- The second event is tried whether the context ended or not.
unfoldable pub receive_complete : Bool → Incoming → Network → Result (Stop × Network) Network
receive_complete emits arrived network = do
  through ← need arrived.payload.as_complete network
  told ←
      tell emits (frame arrived) (record network {
        cursor = max network.cursor through;
        ever_connected = true;
        ready = true;
      })
  ok (emit connected told)

unfoldable pub receive_error : Bool → Incoming → Network → Result (Stop × Network) Network
receive_error emits arrived network = do
  f ← need arrived.payload.as_failure network
  refuse (not network.welcomed) (join_error f.code, network)
  tell emits (frame arrived) network

unfoldable pub receive_other : Bool → Incoming → Network → Result (Stop × Network) Network
receive_other emits arrived network = tell emits (frame arrived) network

-- One round of the loop of `connect`.
unfoldable pub receive : Bool → Bool → Kind → Incoming → Network → Result (Stop × Network) Network
receive emits pushes Kind.welcome arrived network = receive_welcome emits arrived network
receive emits pushes Kind.history arrived network = receive_page false emits pushes arrived network
receive emits pushes Kind.sync arrived network = receive_page true emits pushes arrived network
receive emits pushes Kind.message arrived network = receive_message emits arrived network
receive emits pushes Kind.recalled arrived network = receive_recalled emits arrived network
receive emits pushes Kind.sync_complete arrived network = receive_complete emits arrived network
receive emits pushes Kind.error arrived network = receive_error emits arrived network
receive emits pushes (Kind.other name) arrived network =
    if text_eq name (codes "history_cleared")
    then receive_cleared emits arrived network
    else receive_other emits arrived network
receive emits pushes _ arrived network = receive_other emits arrived network
