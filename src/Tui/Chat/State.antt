-- ===== src/Tui/Chat/State.antt =====
-- The state of a chat: `Model` of internal/tui/model.go without its text fields and dialogs, `recallPicker`, and
-- `client.Event`. A map is an association list; the order in which `range` goes through it is the list's.
use spacechat.Prelude.{ℕ, Bool, List, Option, Text}
use spacechat.AccessKey.{KeyError}
use spacechat.Protocol.Frames.{Message, Code}
use spacechat.Protocol.Validate.{TextError}
use spacechat.Client.{Incoming, Network, QueueError}

-- `State` of an event of the client; a refusal ends the attempt to join.
pub data Status : Type 0 where
  connected connecting disconnected unauthorized upgrade_required : Status
  name_taken invalid_name invalid_address tls_error unsupported_client : Status
  unknown_status : Text → Status

-- `client.Event`: a state with its detail, a frame, or neither.
pub data Event : Type 0 where
  status : Status → Text → Event
  frame : Incoming → Event
  nothing : Event

-- The line of text in `state`.
pub data Standing : Type 0 where
  not_connected joining online retrying : Standing

-- The line of text in `notice`.
pub data Notice : Type 0 where
  no_notice : Notice
  reconnecting recall_unknown messages_unknown cleared_by_server recalled_done : Notice
  needs_connection sending loading_older nothing_to_recall recalling switched_room : Notice
  detail : Text → Notice
  invalid_body : TextError → Notice
  not_queued : QueueError → Notice
  mentioned_by : Text → Notice
  failed_with : Code → Notice
  login_name : TextError → Notice
  login_key : KeyError → Notice

-- An entry of `issues`.
pub data Issue : Type 0 where
  result_unknown : Text → Issue
  send_failed : Text → Code → Issue

-- The line of text in a `recallPicker`.
pub data PickNotice : Type 0 where
  no_pick_notice confirm_recall expired needs_link : PickNotice
  not_recalled : QueueError → PickNotice

-- `recallPicker`; `confirm_id` is 0 while nothing is to be confirmed.
pub record RecallPicker : Type 0 where
  pub selected : ℕ
  pub confirm_id : ℕ
  pub notice : PickNotice

-- `source` tells one client from another, as its address does. The focus of the text fields is that of
-- the library.
pub record Chat : Type 0 where
  pub name : Text
  pub network : Option Network
  pub source : ℕ
  pub joined : Bool
  pub connected : Bool
  pub state : Standing
  pub notice : Notice
  pub messages : List Message
  pub users : List Text
  pub pending : List (Text × Text)
  pub recalls : List (Text × ℕ)
  pub recaller : Option RecallPicker
  pub issues : List Issue
  pub has_more : Bool
  pub loading : Bool
  pub sequence : ℕ
