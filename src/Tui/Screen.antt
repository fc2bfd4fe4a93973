-- ===== src/Tui/Screen.antt =====
-- A whole `Model` of the terminal's user interface: the chat with its text fields, the dialog for changing the
-- room (room_switch.go), and what has been done with clients.
use spacechat.Prelude.{ℕ, Bool, true, false, List, [], ◌∷◌, Option, none, some, Text}
use spacechat.AccessKey.{KeyError}
use spacechat.Protocol.Validate.{TextError}
use spacechat.Client.{Network}
use spacechat.Tui.Chat.{Chat, joining, no_notice}

-- The line of text in a `roomSwitch`.
pub data SwitchNotice : Type 0 where
  no_switch_notice same_room waiting_for_result discard_draft entering : SwitchNotice
  target_closed entry_failed entry_timeout cleared_check result_unknown send_failed : SwitchNotice
  refused_key : KeyError → SwitchNotice
  refused_name : TextError → SwitchNotice
  refused_with : Text → SwitchNotice

-- What the candidate of a switch differs in from a model that is new: its key and its chat.
pub record Candidate : Type 0 where
  pub access_key : Text
  pub chat : Chat

-- Which of the fields of the login has the focus.
pub data Focus : Type 0 where
  on_nickname on_access_key on_neither : Focus

-- `roomSwitch`; `on_key` tells which of its fields has the focus.
pub record Dialog : Type 0 where
  pub key : Text
  pub nickname : Text
  pub on_key : Bool
  pub notice : SwitchNotice
  pub confirm : Bool
  pub waiting : Bool
  pub waiting_failed : Bool
  pub candidate : Option Candidate

-- `Model`. `cancel` is set exactly when a client is. `clients` counts the clients that were made: the next one's
-- source; `started` holds those that `Run` was called on with name and key, `cancelled` those whose context was ended.
pub record Screen : Type 0 where
  pub chat : Chat
  pub nickname : Text
  pub access_key : Text
  pub focus : Focus
  pub input : Text
  pub switcher : Option Dialog
  pub has_upgrade : Bool
  pub has_quit : Bool
  pub clients : ℕ
  pub started : List (ℕ × (Text × Text))
  pub cancelled : List ℕ

-- A client that `NewPeer` or `NewWithInfo` made.
abbrev pub new_network : Network
new_network = record {
  instance = [];
  cursor = 0;
  ever_connected = false;
  ready = false;
  alive = true;
  welcomed = false;
  outgoing = [];
  events = [];
}

-- The chat of a model from `newWithClientFactory` that goes into a room.
unfoldable pub joining_chat : Text → ℕ → Chat
joining_chat name source = record {
  name = name;
  network = some new_network;
  source = source;
  joined = true;
  connected = false;
  state = joining;
  notice = no_notice;
  messages = [];
  users = [];
  pending = [];
  recalls = [];
  recaller = none;
  issues = [];
  has_more = false;
  loading = false;
  sequence = 0;
}

-- `cancel`, if there is one.
unfoldable pub stop_chat : Option Network → ℕ → List ℕ → List ℕ
stop_chat none source cancelled = cancelled
stop_chat (some network) source cancelled = source ∷ cancelled

-- `Close` of the candidate, if there is one.
unfoldable pub stop_candidate : Option Candidate → List ℕ → List ℕ
stop_candidate none cancelled = cancelled
stop_candidate (some c) cancelled = stop_chat c.chat.network c.chat.source cancelled

abbrev pub candidate_of : Option Dialog → Option Candidate
candidate_of none = none
candidate_of (some d) = d.candidate

-- `Close`
unfoldable pub close : Screen → Screen
close screen = record screen {
  cancelled =
      stop_chat screen.chat.network screen.chat.source
        (stop_candidate (candidate_of screen.switcher) screen.cancelled);
}
