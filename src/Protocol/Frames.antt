-- ===== src/Protocol/Frames.antt =====
-- The message types of protocol.go. A frame's payload is JSON: what the server sends is a `Payload`;
-- what it receives is a `Received`, the results of unmarshalling the bytes at each type that the
-- server asks for (`none`: `json.Unmarshal` fails).
use spacechat.Prelude.{ℕ, Bool, List, map, Option, none, some, Text, [], ◌*◌}
use spacechat.Prelude.Int.{ℤ}

-- The print of an instant (nanoseconds, RFC 3339), or a text that does not parse as one.
pub data Timestamp : Type 0 where
  at : ℕ → Timestamp
  unreadable : Text → Timestamp

-- `time.Parse(time.RFC3339Nano, …)`
unfoldable pub parse_time : Timestamp → Option ℕ
parse_time (at n) = some n
parse_time (unreadable t) = none

abbrev pub page_size : ℕ
page_size = 100

-- Two minutes, in nanoseconds.
abbrev pub recall_window : ℕ
recall_window = 120 * 1000000000

pub record Message : Type 0 where
  pub id : ℕ
  pub nickname : Text
  pub body : Text
  pub created_at : Timestamp
  pub mentions : List Text
  pub recalled : Bool
  pub can_recall : Bool
  pub owner_id : Text

pub record Join : Type 0 where
  pub access_key : Text
  pub nickname : Text
  pub instance_id : Text
  pub after_id : ℤ
  pub client_token : Text
  pub client_version : Text
  pub client_os : Text
  pub client_arch : Text

pub record Welcome : Type 0 where
  pub instance_id : Text
  pub through_id : ℕ
  pub resumed : Bool
  pub users : List Text

pub record Page : Type 0 where
  pub messages : List Message
  pub has_more : Bool
  pub through_id : ℕ

pub record Query : Type 0 where
  pub before_id : ℤ
  pub after_id : ℤ

pub record Recalled : Type 0 where
  pub message : Message
  pub instance_id : Text

pub record Cleared : Type 0 where
  pub instance_id : Text
  pub deleted : ℕ
  pub created_at : Timestamp

-- `Failure.Code`; `Failure.Message`, the text that a person reads, is not modelled.
pub data Code : Type 0 where
  invalid_join unauthorized invalid_name unavailable storage_error name_taken invalid_cursor : Code
  upgrade_required unsupported_client invalid_request syncing invalid_message : Code
  unsupported recall_denied recall_expired : Code

pub record Failure : Type 0 where
  pub code : Code
  pub minimum_version : Text

-- The payloads that the server encodes.
pub data Payload : Type 0 where
  welcome : Welcome → Payload
  page : Page → Payload
  message : Message → Payload
  recalled : Recalled → Payload
  presence : List Text → Payload
  complete : ℕ → Payload
  failure : Failure → Payload
  cleared : Cleared → Payload

-- The string in `Frame.Type`.
pub data Kind : Type 0 where
  join send recall history sync : Kind
  welcome message ack recalled presence sync_complete error : Kind
  other : Text → Kind

pub record Frame : Type 0 where
  pub kind : Kind
  pub request_id : Text
  pub payload : Payload

pub record Received : Type 0 where
  pub as_join : Option Join
  pub as_send : Option Text
  pub as_recall : Option ℤ
  pub as_query : Option Query

-- A frame that a client sent.
pub record Request : Type 0 where
  pub kind : Kind
  pub request_id : Text
  pub payload : Received

-- `OwnerID` is tagged `json:"-"`: it does not reach the wire.
unfoldable pub on_wire : Message → Message
on_wire m = record m { owner_id = [] }

unfoldable pub marshal : Payload → Payload
unfolding on_wire
marshal (page p) = page (record p { messages = map on_wire p.messages })
marshal (message m) = message (on_wire m)
marshal (recalled r) = recalled (record r { message = on_wire r.message })
marshal p = p

unfoldable pub encode : Kind → Text → Payload → Frame
unfolding marshal
encode kind request_id payload = record {
  kind = kind;
  request_id = request_id;
  payload = marshal payload;
}
