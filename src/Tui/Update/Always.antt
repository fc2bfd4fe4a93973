-- ===== src/Tui/Update/Always.antt =====
-- Every input leaves every client tended.
use spacechat.Prelude.{
  ℕ, ◌≡◌, refl, ap, Bool, true, [], Option, none, some, Text, if◌then◌else◌, if_intro,
}
use spacechat.Tui.Keys.{
  Key, esc, enter, tab, up, down, f2, f5, paste, page_down, top, bottom, interrupt, other, page_up,
  Input, key, network_event, switch_timeout, mouse,
}
use spacechat.Tui.Chat.{Chat, Event, RecallPicker, apply_event, send_body, load_older}
use spacechat.Tui.Recall.{open_recall, update_recall}
use spacechat.Tui.Recall.Confirmed.{update_recall-Asks}
use spacechat.Tui.Screen.{Screen, Dialog, Candidate, close, candidate_of, entry_timeout}
use spacechat.Tui.Switch.{candidate_event, continue_switch}
use spacechat.Tui.Update.{
  own_source, with_chat, update, press, press_dialog, press_recaller, press_room, send_draft,
  refocus, own_event, event_for, timed_out, move_mouse, quit_for_upgrade, is_upgrade,
}
use spacechat.Tui.Update.Tended.{Tended, close-Tended, fail_switch-Tended}
use spacechat.Tui.Update.Steps.{
  update_switch-Tended, candidate_event-Tended, continue_switch-Tended, own_source-apply_event,
}
use spacechat.Tui.Update.Login.{
  with_chat-Tended, open_switch-Tended, press_login-Tended, refocus-Tended, plain-Tended, same,
}
use spacechat.Tui.Update.Links.{
  Linked, send_body-Linked, load_older-Linked, Outcome-Linked, open_recall-Linked,
}

module _ (now : ℕ) (screen : Screen) (t : Tended screen) where
  send_draft-Tended : (r : Bool × Chat) → Linked screen.chat r.1 → Tended (send_draft screen r)
  unfolding send_draft
  send_draft-Tended (handed, chat) l =
      if_intro Tended handed
        (λ _. plain-Tended screen t (record screen { chat = chat; input = [] }) refl refl refl l)
        (λ _. plain-Tended screen t (record screen { chat = chat }) refl refl refl l)

  typed-Tended : (typed : Text) → Tended (record screen { input = typed })
  typed-Tended typed =
      plain-Tended screen t (record screen { input = typed }) refl refl refl (same screen t)

  press_room-Tended :
      (k : Key) (typed : Text) → screen.switcher ≡ none → Tended (press_room now k typed screen)
  unfolding press_room
  press_room-Tended f2 typed g = open_switch-Tended screen t g
  press_room-Tended f5 typed g =
      with_chat-Tended screen t (open_recall now screen.chat) (open_recall-Linked screen.chat now)
  press_room-Tended paste typed g = t
  press_room-Tended enter typed g =
      send_draft-Tended (send_body screen.input screen.chat)
        (send_body-Linked screen.chat screen.input)
  press_room-Tended (page_up at_top) typed g =
      with_chat-Tended screen t (load_older at_top screen.chat)
        (load_older-Linked screen.chat at_top)
  press_room-Tended top typed g =
      with_chat-Tended screen t (load_older true screen.chat) (load_older-Linked screen.chat true)
  press_room-Tended page_down typed g = t
  press_room-Tended bottom typed g = t
  press_room-Tended esc typed g = typed-Tended typed
  press_room-Tended tab typed g = typed-Tended typed
  press_room-Tended up typed g = typed-Tended typed
  press_room-Tended down typed g = typed-Tended typed
  press_room-Tended interrupt typed g = typed-Tended typed
  press_room-Tended other typed g = typed-Tended typed

  press_recaller-Tended :
      (k : Key) (typed : Text) (o : Option RecallPicker)
      → screen.switcher ≡ none
      → Tended (press_recaller now k typed screen o)
  unfolding press_recaller
  press_recaller-Tended k typed (some picker) g =
      let after = update_recall now k picker screen.chat in
      with_chat-Tended screen t after (
        Outcome-Linked screen.chat now picker.confirm_id after
          (update_recall-Asks now k picker screen.chat))
  press_recaller-Tended k typed none g =
      if_intro Tended screen.chat.joined (λ _. press_room-Tended k typed g)
        (λ _. press_login-Tended screen t k typed)

  press_dialog-Tended :
      (k : Key) (typed : Text) (o : Option Dialog)
      → screen.switcher ≡ o
      → Tended (press_dialog now k typed screen o)
  unfolding press_dialog
  press_dialog-Tended k typed (some d) g = update_switch-Tended d screen g t k typed
  press_dialog-Tended k typed none g = press_recaller-Tended k typed screen.chat.recaller g

  quit-Tended :
      (upgrade : Bool) → Tended (record (close screen) { has_upgrade = upgrade; has_quit = true })
  quit-Tended upgrade =
      plain-Tended (close screen) (close-Tended screen t)
        (record (close screen) { has_upgrade = upgrade; has_quit = true }) refl refl refl
        (same (close screen) (close-Tended screen t))

  open_press-Tended :
      (k : Key) (typed : Text) → Tended (press_dialog now k typed screen screen.switcher)
  open_press-Tended k typed = press_dialog-Tended k typed screen.switcher refl

  press-Tended : (k : Key) (typed : Text) → Tended (press now k typed screen)
  unfolding press
  press-Tended interrupt typed = quit-Tended screen.has_upgrade
  press-Tended esc typed = open_press-Tended esc typed
  press-Tended enter typed = open_press-Tended enter typed
  press-Tended tab typed = open_press-Tended tab typed
  press-Tended up typed = open_press-Tended up typed
  press-Tended down typed = open_press-Tended down typed
  press-Tended f2 typed = open_press-Tended f2 typed
  press-Tended f5 typed = open_press-Tended f5 typed
  press-Tended paste typed = open_press-Tended paste typed
  press-Tended page_down typed = open_press-Tended page_down typed
  press-Tended top typed = open_press-Tended top typed
  press-Tended bottom typed = open_press-Tended bottom typed
  press-Tended other typed = open_press-Tended other typed
  press-Tended (page_up b) typed = open_press-Tended (page_up b) typed

  own_event-Tended : (closed : Bool) (ev : Event) → Tended (own_event closed ev screen)
  unfolding own_event quit_for_upgrade
  own_event-Tended closed ev =
      let told = with_chat (apply_event ev screen.chat) screen in
      let applied = refocus ev told in
      if_intro Tended closed {x = screen} (λ _. t)
        (λ _.
          if_intro Tended (is_upgrade ev) {y = continue_switch ev applied.switcher applied}
            (λ _. quit-Tended true)
            (λ _.
              continue_switch-Tended applied
                (refocus-Tended told
                  (with_chat-Tended screen t (apply_event ev screen.chat)
                    (λ id. own_source-apply_event id ev screen.chat))
                  ev)
                ev applied.switcher refl))

  room_event-Tended :
      (source : ℕ) (closed : Bool) (ev : Event)
      → Tended (if own_source source screen.chat then own_event closed ev screen else screen)
  room_event-Tended source closed ev =
      if_intro Tended (own_source source screen.chat) (λ _. own_event-Tended closed ev) (λ _. t)

  event_for-Tended :
      (source : ℕ) (closed : Bool) (ev : Event) (c : Option Candidate) (o : Option Dialog)
      → screen.switcher ≡ o
      → candidate_of o ≡ c
      → Tended (event_for source closed ev screen c o)
  unfolding event_for quit_for_upgrade
  event_for-Tended source closed ev (some c) (some d) g f =
      if_intro Tended (own_source source c.chat)
        {x = if is_upgrade ev
          then quit_for_upgrade screen
          else candidate_event closed ev c d screen}
        {y = if own_source source screen.chat then own_event closed ev screen else screen}
        (λ _.
          if_intro Tended (is_upgrade ev) {x = quit_for_upgrade screen} (λ _. quit-Tended true)
            (λ _. candidate_event-Tended d screen g t c f closed ev))
        (λ _. room_event-Tended source closed ev)
  event_for-Tended source closed ev none o g f = room_event-Tended source closed ev
  event_for-Tended source closed ev (some c) none g f = room_event-Tended source closed ev

  timed_out-Tended :
      (source : ℕ) (c : Option Candidate) (o : Option Dialog)
      → screen.switcher ≡ o
      → Tended (timed_out source screen c o)
  unfolding timed_out
  timed_out-Tended source (some c) (some d) g =
      if_intro Tended (own_source source c.chat)
        (λ _. fail_switch-Tended d screen (ap candidate_of g) t entry_timeout) (λ _. t)
  timed_out-Tended source none o g = t
  timed_out-Tended source (some c) none g = t

  move_mouse-Tended :
      (at_top : Bool) (o : Option Dialog) (p : Option RecallPicker)
      → Tended (move_mouse at_top screen o p)
  unfolding move_mouse
  move_mouse-Tended at_top none none =
      with_chat-Tended screen t (load_older at_top screen.chat)
        (load_older-Linked screen.chat at_top)
  move_mouse-Tended at_top (some d) p = t
  move_mouse-Tended at_top none (some p) = t

-- Whatever the user, the clients and the clock do, in any order, no client is forgotten, with the pickers of kaomoji
-- and members and the clipboard aside: each client that was ever started has been cancelled, or is the client of the
-- room, or that of the candidate; and a dialog that waits for the answers of the room has no candidate.
pub update-Tended :
    (now : ℕ) (input : Input) (screen : Screen) → Tended screen → Tended (update now input screen)
unfolding update
update-Tended now (key k typed) screen t = press-Tended now screen t k typed
update-Tended now (network_event source closed ev) screen t =
    event_for-Tended now screen t source closed ev (candidate_of screen.switcher) screen.switcher
      refl refl
update-Tended now (switch_timeout source) screen t =
    timed_out-Tended now screen t source (candidate_of screen.switcher) screen.switcher refl
update-Tended now (mouse at_top) screen t =
    move_mouse-Tended now screen t at_top screen.switcher screen.chat.recaller
