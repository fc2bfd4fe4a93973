-- ===== src/Tui/Update.antt =====
-- `Model.Update` of model.go without its pickers of kaomoji and members, and what keys do in the login.
pub mod Tended
pub mod Steps
pub mod Login
pub mod Links
pub mod Always
pub mod Draft
use spacechat.Prelude.{
  ℕ, suc, Bool, true, false, ◌&&◌, not, ◌==◌, List, [], ◌∷◌, Option, none, some, Text,
  if◌then◌else◌, Result, ok, err,
}
use spacechat.Unicode.{trim_space}
use spacechat.AccessKey.{KeyError, validate_key}
use spacechat.Protocol.Validate.{TextError, validate_name}
use spacechat.Client.{Network}
use spacechat.Tui.Keys.{
  Key, esc, enter, tab, up, down, f2, f5, paste, page_down, top, bottom, interrupt, other, page_up,
  Input, key, network_event, switch_timeout, mouse,
}
use spacechat.Tui.Chat.{
  Chat, Event, Status, Notice, no_notice, login_key, login_name, joining, frame, status, nothing,
  connected, unauthorized, upgrade_required, name_taken, invalid_name, invalid_address, tls_error,
  unsupported_client, RecallPicker, apply_event, send_body, load_older,
}
use spacechat.Tui.Recall.{open_recall, update_recall}
use spacechat.Tui.Screen.{
  Screen, Focus, on_nickname, on_access_key, on_neither, Dialog, Candidate, entry_timeout,
  new_network, close, candidate_of,
}
use spacechat.Tui.Switch.{open_switch, fail_switch, update_switch, candidate_event, continue_switch}

abbrev pub with_chat : Chat → Screen → Screen
with_chat chat screen = record screen { chat = chat }

abbrev pub with_notice : Notice → Screen → Screen
with_notice text screen = record screen { chat = record screen.chat { notice = text } }

-- What `applyEvent` does to the fields of the login.
unfoldable pub refocus : Event → Screen → Screen
refocus (status unauthorized text) screen = record screen { access_key = []; focus = on_access_key }
refocus (status name_taken text) screen = record screen { focus = on_nickname }
refocus (status invalid_name text) screen = record screen { focus = on_nickname }
refocus (status invalid_address text) screen = record screen { focus = on_nickname }
refocus (status tls_error text) screen = record screen { focus = on_nickname }
refocus (status unsupported_client text) screen = record screen { focus = on_nickname }
refocus e screen = screen

-- A client is made and started with the name and the key of the login.
unfoldable pub start_client : Text → Screen → Screen
start_client name screen =
    let closed = close screen in
    record closed {
      chat = record screen.chat {
        name = name;
        joined = true;
        state = joining;
        notice = no_notice;
        network = some new_network;
        source = screen.clients;
      };
      focus = on_neither;
      clients = suc screen.clients;
      started = (screen.clients, (name, screen.access_key)) ∷ screen.started;
    }

unfoldable pub login_checked : Text → Screen → Result KeyError (Unit {0}) → Screen
login_checked name screen (err e) = with_notice (login_key e) screen
login_checked name screen (ok _) = start_client name screen

unfoldable pub login_named : Text → Screen → Focus → Result TextError (Unit {0}) → Screen
login_named name screen focus (err e) = with_notice (login_name e) screen
login_named name screen on_nickname (ok _) = record screen { focus = on_access_key }
login_named name screen focus (ok _) = login_checked name screen (validate_key screen.access_key)

-- "enter" in the login.
unfoldable pub log_in : Screen → Screen
log_in screen =
    let name = trim_space screen.nickname in
    login_named name screen screen.focus (validate_name name)

unfoldable pub next_field : Focus → Focus
next_field on_nickname = on_access_key
next_field on_access_key = on_nickname
next_field on_neither = on_nickname

unfoldable pub type_login : Text → Focus → Screen → Screen
type_login typed on_nickname screen = record screen { nickname = typed }
type_login typed on_access_key screen = record screen { access_key = typed }
type_login typed on_neither screen = screen

unfoldable pub press_login : Key → Text → Screen → Screen
press_login tab typed screen = record screen { focus = next_field screen.focus }
press_login enter typed screen = log_in screen
press_login k typed screen = type_login typed screen.focus screen

-- The draft goes away only if its message was handed over.
unfoldable pub send_draft : Screen → Bool × Chat → Screen
send_draft screen (handed, chat) =
    if handed then record screen { chat = chat; input = [] } else record screen { chat = chat }

module _ (now : ℕ) where
  -- A key in the room, with no dialog open.
  unfoldable pub press_room : Key → Text → Screen → Screen
  press_room f2 typed screen = open_switch screen
  press_room f5 typed screen = with_chat (open_recall now screen.chat) screen
  press_room paste typed screen = screen
  press_room enter typed screen = send_draft screen (send_body screen.input screen.chat)
  press_room (page_up at_top) typed screen = with_chat (load_older at_top screen.chat) screen
  press_room top typed screen = with_chat (load_older true screen.chat) screen
  press_room page_down typed screen = screen
  press_room bottom typed screen = screen
  press_room k typed screen = record screen { input = typed }

  unfoldable pub press_recaller : Key → Text → Screen → Option RecallPicker → Screen
  press_recaller k typed screen (some picker) =
      with_chat (update_recall now k picker screen.chat) screen
  press_recaller k typed screen none =
      if screen.chat.joined then press_room k typed screen else press_login k typed screen

  unfoldable pub press_dialog : Key → Text → Screen → Option Dialog → Screen
  press_dialog k typed screen (some dialog) = update_switch k typed dialog screen
  press_dialog k typed screen none = press_recaller k typed screen screen.chat.recaller

  -- The case `tea.KeyMsg`.
  unfoldable pub press : Key → Text → Screen → Screen
  press interrupt typed screen = record (close screen) { has_quit = true }
  press k typed screen = press_dialog k typed screen screen.switcher

-- "upgrade_required"
unfoldable pub quit_for_upgrade : Screen → Screen
quit_for_upgrade screen = record (close screen) { has_upgrade = true; has_quit = true }

abbrev pub is_upgrade : Event → Bool
is_upgrade (status upgrade_required text) = true
is_upgrade e = false

-- An event of the own client.
unfoldable pub own_event : Bool → Event → Screen → Screen
own_event closed e screen =
    if closed
    then screen
    else if is_upgrade e
    then quit_for_upgrade screen
    else let applied = refocus e (with_chat (apply_event e screen.chat) screen) in
      continue_switch e applied.switcher applied

abbrev pub runs : ℕ → Option Network → ℕ → Bool
runs source none own = false
runs source (some network) own = own == source

abbrev pub own_source : ℕ → Chat → Bool
own_source source chat = runs source chat.network chat.source

unfoldable pub event_for : ℕ → Bool → Event → Screen → Option Candidate → Option Dialog → Screen
event_for source closed e screen (some c) (some dialog) =
    if own_source source c.chat
    then (if is_upgrade e
        then quit_for_upgrade screen
        else candidate_event closed e c dialog screen)
    else if own_source source screen.chat
    then own_event closed e screen
    else screen
event_for source closed e screen c dialog =
    if own_source source screen.chat then own_event closed e screen else screen

unfoldable pub timed_out : ℕ → Screen → Option Candidate → Option Dialog → Screen
timed_out source screen (some c) (some dialog) =
    if own_source source c.chat then fail_switch entry_timeout dialog screen else screen
timed_out source screen c dialog = screen

-- The mouse is the viewport's while no dialog is open.
unfoldable pub move_mouse : Bool → Screen → Option Dialog → Option RecallPicker → Screen
move_mouse at_top screen none none = with_chat (load_older at_top screen.chat) screen
move_mouse at_top screen dialog picker = screen

-- `Update`
unfoldable pub update : ℕ → Input → Screen → Screen
update now (key k typed) screen = press now k typed screen
update now (network_event source closed e) screen =
    event_for source closed e screen (candidate_of screen.switcher) screen.switcher
update now (switch_timeout source) screen =
    timed_out source screen (candidate_of screen.switcher) screen.switcher
update now (mouse at_top) screen = move_mouse at_top screen screen.switcher screen.chat.recaller
