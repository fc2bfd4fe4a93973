-- ===== src/Tui/Update/Steps.antt =====
-- What the dialog of a switch does with clients: keys, and the events of the candidate and of the room.
use spacechat.Prelude.{
  ℕ, ◌≡◌, refl, sym, ap, ◌∙◌, Bool, true, false, ◌||◌, not, Option, none, some, arith, Text,
  if◌then◌else◌, if_intro,
}
use spacechat.Tui.Keys.{
  Key, esc, enter, tab, up, down, f2, f5, paste, page_down, top, bottom, interrupt, other, page_up,
}
use spacechat.Tui.Chat.{
  Chat, Event, Status, status, frame, nothing, connected, connecting, disconnected, unauthorized,
  upgrade_required, name_taken, invalid_name, invalid_address, tls_error, unsupported_client,
  unknown_status, apply_event,
}
use spacechat.Tui.Chat.Kept.{apply_event-Kept}
use spacechat.Tui.Screen.{
  Screen, Dialog, Candidate, candidate_of, entry_failed, target_closed, refused_with,
}
use spacechat.Tui.Switch.{
  has_candidate, press_switch, update_switch, enter_room, candidate_status, candidate_told,
  candidate_event, continue_switch, answered_switch, is_settled, is_error, with_dialog,
  with_candidate,
}
use spacechat.Tui.Update.{runs, own_source}
use spacechat.Tui.Update.Tended.{
  candidate_runs, is_apart, Tended, Tended-step, fail_switch-Tended, cancel_switch-Tended,
  idle_dialog-Tended, submit_switch-Tended, type_switch-Tended, answered_switch-Tended,
  cancelled-stop_chat,
}

no_candidate : (o : Option Candidate) → has_candidate o ≡ false → o ≡ none
no_candidate none h = refl
no_candidate (some c) h = absurd (ground (arith, h))

pub own_source-apply_event :
    (id : ℕ) (ev : Event) (chat : Chat) → own_source id (apply_event ev chat) ≡ own_source id chat
own_source-apply_event id ev chat =
    let kept = apply_event-Kept ev chat in
    ap (λ n. runs id n (apply_event ev chat).source) kept.1 ∙ ap (runs id chat.network) kept.2

module _ (d : Dialog) (screen : Screen) (g : screen.switcher ≡ some d) (t : Tended screen) where
  e : candidate_of screen.switcher ≡ d.candidate
  e = ap candidate_of g

  press_switch-Tended :
      (k : Key) (typed : Text) → d.candidate ≡ none → Tended (press_switch k typed d screen)
  unfolding press_switch
  press_switch-Tended paste typed f = t
  press_switch-Tended enter typed f = submit_switch-Tended d screen (e ∙ f) f t
  press_switch-Tended tab typed f =
      idle_dialog-Tended d screen (e ∙ f) f t (record d { confirm = false; on_key = not d.on_key })
        f
  press_switch-Tended esc typed f = type_switch-Tended d screen (e ∙ f) f t typed
  press_switch-Tended up typed f = type_switch-Tended d screen (e ∙ f) f t typed
  press_switch-Tended down typed f = type_switch-Tended d screen (e ∙ f) f t typed
  press_switch-Tended f2 typed f = type_switch-Tended d screen (e ∙ f) f t typed
  press_switch-Tended f5 typed f = type_switch-Tended d screen (e ∙ f) f t typed
  press_switch-Tended page_down typed f = type_switch-Tended d screen (e ∙ f) f t typed
  press_switch-Tended top typed f = type_switch-Tended d screen (e ∙ f) f t typed
  press_switch-Tended bottom typed f = type_switch-Tended d screen (e ∙ f) f t typed
  press_switch-Tended interrupt typed f = type_switch-Tended d screen (e ∙ f) f t typed
  press_switch-Tended other typed f = type_switch-Tended d screen (e ∙ f) f t typed
  press_switch-Tended (page_up b) typed f = type_switch-Tended d screen (e ∙ f) f t typed

  open_key-Tended :
      (k : Key) (typed : Text)
      → Tended
          (if has_candidate d.candidate || d.waiting then screen else press_switch k typed d screen)
  open_key-Tended k typed =
      if_intro Tended (has_candidate d.candidate || d.waiting) (λ _. t)
        (λ idle. press_switch-Tended k typed (no_candidate d.candidate (ground (arith, idle))))

  pub update_switch-Tended : (k : Key) (typed : Text) → Tended (update_switch k typed d screen)
  unfolding update_switch
  update_switch-Tended esc typed = cancel_switch-Tended d screen e t
  update_switch-Tended f2 typed = t
  update_switch-Tended enter typed = open_key-Tended enter typed
  update_switch-Tended tab typed = open_key-Tended tab typed
  update_switch-Tended up typed = open_key-Tended up typed
  update_switch-Tended down typed = open_key-Tended down typed
  update_switch-Tended f5 typed = open_key-Tended f5 typed
  update_switch-Tended paste typed = open_key-Tended paste typed
  update_switch-Tended page_down typed = open_key-Tended page_down typed
  update_switch-Tended top typed = open_key-Tended top typed
  update_switch-Tended bottom typed = open_key-Tended bottom typed
  update_switch-Tended interrupt typed = open_key-Tended interrupt typed
  update_switch-Tended other typed = open_key-Tended other typed
  update_switch-Tended (page_up b) typed = open_key-Tended (page_up b) typed

  module _ (c : Candidate) (f : d.candidate ≡ some c) where
    enter_room-Tended : (ev : Event) → Tended (enter_room (apply_event ev c.chat) c screen)
    unfolding enter_room
    enter_room-Tended ev =
        Tended-step screen (enter_room (apply_event ev c.chat) c screen) refl
          (λ id h. ground (
            arith,
            h,
            ap (candidate_runs id) (e ∙ f),
            own_source-apply_event id ev c.chat,
            cancelled-stop_chat id screen.chat.network screen.chat.source screen.cancelled,
          ))
          refl t

    with_candidate-Tended :
        (ev : Event) → Tended (with_candidate (apply_event ev c.chat) c d screen)
    with_candidate-Tended ev =
        Tended-step screen (with_candidate (apply_event ev c.chat) c d screen) refl
          (λ id h.
            ground (arith, h, ap (candidate_runs id) (e ∙ f), own_source-apply_event id ev c.chat))
          (ground (arith, t.1, ap is_apart g, f)) t

    candidate_status-Tended :
        (st : Status) (text : Text) → Tended (candidate_status st text c d screen)
    unfolding candidate_status
    candidate_status-Tended connected text = enter_room-Tended (status connected text)
    candidate_status-Tended disconnected text = fail_switch-Tended d screen e t entry_failed
    candidate_status-Tended unauthorized text = fail_switch-Tended d screen e t (refused_with text)
    candidate_status-Tended name_taken text = fail_switch-Tended d screen e t (refused_with text)
    candidate_status-Tended invalid_name text = fail_switch-Tended d screen e t (refused_with text)
    candidate_status-Tended invalid_address text =
        fail_switch-Tended d screen e t (refused_with text)
    candidate_status-Tended tls_error text = fail_switch-Tended d screen e t (refused_with text)
    candidate_status-Tended unsupported_client text =
        fail_switch-Tended d screen e t (refused_with text)
    candidate_status-Tended connecting text = with_candidate-Tended (status connecting text)
    candidate_status-Tended upgrade_required text =
        with_candidate-Tended (status upgrade_required text)
    candidate_status-Tended (unknown_status name) text =
        with_candidate-Tended (status (unknown_status name) text)

    pub candidate_event-Tended :
        (closed : Bool) (ev : Event) → Tended (candidate_event closed ev c d screen)
    unfolding candidate_event candidate_told
    candidate_event-Tended true ev = fail_switch-Tended d screen e t target_closed
    candidate_event-Tended false (status st text) = candidate_status-Tended st text
    candidate_event-Tended false (frame arrived) = with_candidate-Tended (frame arrived)
    candidate_event-Tended false nothing = with_candidate-Tended nothing

waiting_alone : (d : Dialog) → is_apart (some d) ≡ true → d.waiting ≡ true → d.candidate ≡ none
waiting_alone d a w = no_candidate d.candidate (ground (arith, a, w))

module _ (screen : Screen) (t : Tended screen) where
  pub continue_switch-Tended :
      (ev : Event) (o : Option Dialog) → screen.switcher ≡ o → Tended (continue_switch ev o screen)
  unfolding continue_switch
  continue_switch-Tended ev none g = t
  continue_switch-Tended ev (some d) g =
      let noted = if is_error ev then record d { waiting_failed = true } else d in
      if_intro Tended (not d.waiting) (λ _. t)
        (λ waits.
          let f = waiting_alone d (ap is_apart (sym g) ∙ t.1) (ground (arith, waits)) in
          let n : noted.candidate ≡ none =
            if_intro (λ (h : Dialog). h.candidate ≡ none) (is_error ev) (λ _. f) (λ _. f) in
          if_intro Tended (not (is_settled screen.chat)) {x = with_dialog noted screen}
            {y = answered_switch ev (record noted { waiting = false }) screen}
            (λ _. idle_dialog-Tended d screen (ap candidate_of g ∙ f) f t noted n)
            (λ _.
              answered_switch-Tended (record noted { waiting = false }) screen
                (ap candidate_of g ∙ f) n t ev))
