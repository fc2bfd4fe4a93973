-- ===== src/Tui/Switch.antt =====
-- room_switch.go: changing the room. The paste from the clipboard into its fields is not modelled.
pub mod Started
use spacechat.Prelude.{
  ℕ, suc, ◌+◌, Bool, true, false, ◌&&◌, ◌||◌, not, List, [], ◌∷◌, ◌++◌, Option, none, some, Text,
  codes, text_eq, if◌then◌else◌, Result, ok, err, refuse, ◌>>◌,
}
use spacechat.Unicode.{trim_space}
use spacechat.AccessKey.{KeyError, validate_key}
use spacechat.Protocol.Validate.{TextError, validate_name}
use spacechat.Protocol.Frames.{Kind}
use spacechat.Client.{Incoming}
use spacechat.Tui.Keys.{Key, esc, enter, tab, f2, paste, interrupt}
use spacechat.Tui.Chat.{
  Chat, Event, Status, frame, status, nothing, switched_room, connected, connecting, disconnected,
  unauthorized, upgrade_required, name_taken, invalid_name, invalid_address, tls_error,
  unsupported_client, unknown_status, is_empty, apply_event,
}
use spacechat.Tui.Screen.{
  Screen, Dialog, Candidate, on_neither, SwitchNotice, no_switch_notice, same_room,
  waiting_for_result, discard_draft, entering, target_closed, entry_failed, cleared_check,
  refused_key, refused_name, refused_with, joining_chat, stop_chat, stop_candidate, result_unknown,
  send_failed,
}

-- `openRoomSwitch`
unfoldable pub open_switch : Screen → Screen
open_switch screen = record screen {
  switcher = some (record {
    key = [];
    nickname = screen.chat.name;
    on_key = true;
    notice = no_switch_notice;
    confirm = false;
    waiting = false;
    waiting_failed = false;
    candidate = none;
  });
}

-- `cancelRoomSwitch`
unfoldable pub cancel_switch : Dialog → Screen → Screen
cancel_switch dialog screen = record screen {
  switcher = none;
  cancelled = stop_candidate dialog.candidate screen.cancelled;
}

-- `failRoomSwitch`
unfoldable pub fail_switch : SwitchNotice → Dialog → Screen → Screen
fail_switch text dialog screen = record screen {
  switcher =
      some (record dialog { candidate = none; waiting = false; confirm = false; notice = text });
  cancelled = stop_candidate dialog.candidate screen.cancelled;
}

abbrev pub or_bad_key : Result KeyError (Unit {0}) → Result SwitchNotice (Unit {0})
or_bad_key (ok u) = ok u
or_bad_key (err e) = err (refused_key e)

abbrev pub or_bad_name : Result TextError (Unit {0}) → Result SwitchNotice (Unit {0})
or_bad_name (ok u) = ok u
or_bad_name (err e) = err (refused_name e)

-- The three checks at the start of `submitRoomSwitch`.
unfoldable pub check_target : Text → Text → Screen → Result SwitchNotice (Unit {0})
check_target name key screen = do
  or_bad_key (validate_key key)
  or_bad_name (validate_name name)
  refuse (text_eq key screen.access_key && text_eq name screen.chat.name) same_room

-- The end of `submitRoomSwitch`: the candidate is made and its client started.
unfoldable pub start_candidate : Text → Dialog → Screen → Screen
start_candidate name dialog screen = record screen {
  switcher = some (record dialog {
    waiting = false;
    confirm = false;
    notice = entering;
    candidate = some (record { access_key = dialog.key; chat = joining_chat name screen.clients });
  });
  clients = suc screen.clients;
  started = (screen.clients, (name, dialog.key)) ∷ screen.started;
}

abbrev pub with_dialog : Dialog → Screen → Screen
with_dialog dialog screen = record screen { switcher = some dialog }

abbrev pub is_settled : Chat → Bool
is_settled chat = is_empty chat.pending && is_empty chat.recalls

unfoldable pub submit_checked : Text → Dialog → Screen → Result SwitchNotice (Unit {0}) → Screen
submit_checked name dialog screen (err text) = with_dialog (record dialog { notice = text }) screen
submit_checked name dialog screen (ok _) =
    if not (is_settled screen.chat)
    then with_dialog
        (record dialog { waiting = true; waiting_failed = false; notice = waiting_for_result })
        screen
    else if not (is_empty screen.input) && not dialog.confirm
    then with_dialog (record dialog { confirm = true; notice = discard_draft }) screen
    else start_candidate name dialog screen

-- `submitRoomSwitch`
unfoldable pub submit_switch : Dialog → Screen → Screen
submit_switch dialog screen =
    let name = trim_space dialog.nickname in
    submit_checked name dialog screen (check_target name dialog.key screen)

-- The focused field takes the text that the library makes of a message.
unfoldable pub type_switch : Text → Dialog → Dialog
type_switch typed dialog =
    let before = if dialog.on_key then dialog.key else dialog.nickname in
    let after =
      if dialog.on_key then record dialog { key = typed } else record dialog { nickname = typed } in
    if text_eq before typed
    then after
    else record after { confirm = false; notice = no_switch_notice }

abbrev pub has_candidate : Option Candidate → Bool
has_candidate none = false
has_candidate (some c) = true

unfoldable pub press_switch : Key → Text → Dialog → Screen → Screen
press_switch paste typed dialog screen = screen
press_switch enter typed dialog screen = submit_switch dialog screen
press_switch tab typed dialog screen =
    with_dialog (record dialog { confirm = false; on_key = not dialog.on_key }) screen
press_switch _ typed dialog screen =
    with_dialog (type_switch typed (record dialog { confirm = false })) screen

-- `updateRoomSwitch` for a key, with the dialog that is open.
unfoldable pub update_switch : Key → Text → Dialog → Screen → Screen
update_switch esc typed dialog screen = cancel_switch dialog screen
update_switch f2 typed dialog screen = screen
update_switch k typed dialog screen =
    if has_candidate dialog.candidate || dialog.waiting
    then screen
    else press_switch k typed dialog screen

-- `*model = *target`, after the own client has been stopped. What of the screen's size and catalog the target
-- has taken over is not in it.
unfoldable pub enter_room : Chat → Candidate → Screen → Screen
enter_room target c screen = record screen {
  chat = record target { notice = switched_room };
  nickname = target.name;
  access_key = c.access_key;
  focus = on_neither;
  input = [];
  switcher = none;
  has_upgrade = false;
  cancelled = stop_chat screen.chat.network screen.chat.source screen.cancelled;
}

abbrev pub with_candidate : Chat → Candidate → Dialog → Screen → Screen
with_candidate target c dialog screen =
    with_dialog (record dialog { candidate = some (record c { chat = target }) }) screen

unfoldable pub candidate_status : Status → Text → Candidate → Dialog → Screen → Screen
candidate_status connected text c dialog screen =
    enter_room (apply_event (status connected text) c.chat) c screen
candidate_status disconnected text c dialog screen = fail_switch entry_failed dialog screen
candidate_status unauthorized text c dialog screen = fail_switch (refused_with text) dialog screen
candidate_status name_taken text c dialog screen = fail_switch (refused_with text) dialog screen
candidate_status invalid_name text c dialog screen = fail_switch (refused_with text) dialog screen
candidate_status invalid_address text c dialog screen =
    fail_switch (refused_with text) dialog screen
candidate_status tls_error text c dialog screen = fail_switch (refused_with text) dialog screen
candidate_status unsupported_client text c dialog screen =
    fail_switch (refused_with text) dialog screen
candidate_status s text c dialog screen =
    with_candidate (apply_event (status s text) c.chat) c dialog screen

unfoldable pub candidate_told : Event → Candidate → Dialog → Screen → Screen
candidate_told (status s text) c dialog screen = candidate_status s text c dialog screen
candidate_told e c dialog screen = with_candidate (apply_event e c.chat) c dialog screen

-- `candidateEvent`
unfoldable pub candidate_event : Bool → Event → Candidate → Dialog → Screen → Screen
candidate_event true e c dialog screen = fail_switch target_closed dialog screen
candidate_event false e c dialog screen = candidate_told e c dialog screen

abbrev pub is_error : Event → Bool
is_error (frame arrived) = (elim arrived.kind [ Kind.error ↦ true | _ ↦ false ])
is_error e = false

abbrev pub is_cleared_frame : Kind → Bool
is_cleared_frame (Kind.other name) = text_eq name (codes "history_cleared")
is_cleared_frame k = false

abbrev pub is_cleared : Event → Bool
is_cleared (frame arrived) = is_cleared_frame arrived.kind
is_cleared e = false

abbrev pub is_disconnected : Event → Bool
is_disconnected (status disconnected text) = true
is_disconnected e = false

-- When nothing waits for an answer any more.
unfoldable pub answered_switch : Event → Dialog → Screen → Screen
answered_switch e dialog screen =
    if is_cleared e
    then with_dialog (record dialog { notice = cleared_check }) screen
    else if is_disconnected e
    then with_dialog (record dialog { notice = result_unknown }) screen
    else if dialog.waiting_failed
    then with_dialog (record dialog { notice = send_failed }) screen
    else submit_switch dialog screen

-- `continueRoomSwitch`
unfoldable pub continue_switch : Event → Option Dialog → Screen → Screen
continue_switch e none screen = screen
continue_switch e (some dialog) screen =
    if not dialog.waiting
    then screen
    else let noted = if is_error e then record dialog { waiting_failed = true } else dialog in
      if not (is_settled screen.chat)
      then with_dialog noted screen
      else answered_switch e (record noted { waiting = false }) screen
