-- ===== src/Tui/Update/Login.antt =====
-- What the login and the plain changes of a screen do with clients.
use spacechat.Prelude.{ℕ, ◌≡◌, refl, ap, ◌∙◌, ◌==◌, [], none, arith, Text, any, Result, ok, err}
use spacechat.Unicode.{trim_space}
use spacechat.AccessKey.{KeyError, validate_key}
use spacechat.Protocol.Validate.{TextError, validate_name}
use spacechat.Tui.Keys.{
  Key, esc, enter, tab, up, down, f2, f5, paste, page_down, top, bottom, interrupt, other, page_up,
}
use spacechat.Tui.Chat.{
  Chat, Event, status, frame, nothing, connected, connecting, disconnected, unauthorized,
  upgrade_required, name_taken, invalid_name, invalid_address, tls_error, unsupported_client,
  unknown_status, login_key, login_name,
}
use spacechat.Tui.Screen.{
  Screen, Focus, on_nickname, on_access_key, on_neither, close, stop_candidate, candidate_of,
}
use spacechat.Tui.Switch.{open_switch}
use spacechat.Tui.Update.{
  own_source, with_chat, with_notice, next_field, press_login, log_in, login_named, login_checked,
  start_client, type_login, refocus,
}
use spacechat.Tui.Update.Tended.{
  candidate_runs, is_tended, is_apart, Tended, Tended-step, cancelled-stop_chat,
  cancelled-stop_candidate, all_weaken,
}

module _ (screen : Screen) (t : Tended screen) where
  pub with_chat-Tended :
      (chat : Chat)
      → ((id : ℕ) → own_source id chat ≡ own_source id screen.chat)
      → Tended (with_chat chat screen)
  with_chat-Tended chat same =
      Tended-step screen (with_chat chat screen) refl (λ id h. ground (arith, h, same id)) t.1 t

  pub open_switch-Tended : screen.switcher ≡ none → Tended (open_switch screen)
  unfolding open_switch
  open_switch-Tended g =
      Tended-step screen (open_switch screen) refl
        (λ id h. ground (arith, h, ap (λ o. candidate_runs id (candidate_of o)) g)) refl t

  start_client-Tended : (name : Text) → Tended (start_client name screen)
  unfolding start_client close
  start_client-Tended name =
      let after = start_client name screen in
      let before_own = stop_candidate (candidate_of screen.switcher) screen.cancelled in
      (
        ground (
          arith,
          all_weaken (λ p. is_tended screen p.0) (λ p. is_tended after p.0) screen.started
              (λ p h. ground (
                arith,
                h,
                cancelled-stop_chat p.0 screen.chat.network screen.chat.source before_own,
                cancelled-stop_candidate p.0 (candidate_of screen.switcher) screen.cancelled,
              ))
              t.0,
        ),
        t.1,
      )

  -- What changes neither the clients nor the dialog.
  pub plain-Tended :
      (after : Screen)
      → after.started ≡ screen.started
      → after.cancelled ≡ screen.cancelled
      → after.switcher ≡ screen.switcher
      → ((id : ℕ) → own_source id after.chat ≡ own_source id screen.chat)
      → Tended after
  plain-Tended after s c w o =
      Tended-step screen after s
        (λ id h.
          ground (
            arith,
            h,
            o id,
            ap (any λ d. d == id) c,
            ap (λ v. candidate_runs id (candidate_of v)) w,
          ))
        (ap is_apart w ∙ t.1) t

  pub same : (id : ℕ) → own_source id screen.chat ≡ own_source id screen.chat
  same id = refl

  login_checked-Tended :
      (name : Text) (r : Result KeyError (Unit {0})) → Tended (login_checked name screen r)
  unfolding login_checked
  login_checked-Tended name (err e) =
      plain-Tended (with_notice (login_key e) screen) refl refl refl same
  login_checked-Tended name (ok u) = start_client-Tended name

  login_named-Tended :
      (name : Text) (focus : Focus) (r : Result TextError (Unit {0}))
      → Tended (login_named name screen focus r)
  unfolding login_named
  login_named-Tended name focus (err e) =
      plain-Tended (with_notice (login_name e) screen) refl refl refl same
  login_named-Tended name on_nickname (ok u) =
      plain-Tended (record screen { focus = on_access_key }) refl refl refl same
  login_named-Tended name on_access_key (ok u) =
      login_checked-Tended name (validate_key screen.access_key)
  login_named-Tended name on_neither (ok u) =
      login_checked-Tended name (validate_key screen.access_key)

  type_login-Tended : (typed : Text) (focus : Focus) → Tended (type_login typed focus screen)
  unfolding type_login
  type_login-Tended typed on_nickname =
      plain-Tended (record screen { nickname = typed }) refl refl refl same
  type_login-Tended typed on_access_key =
      plain-Tended (record screen { access_key = typed }) refl refl refl same
  type_login-Tended typed on_neither = t

  pub press_login-Tended : (k : Key) (typed : Text) → Tended (press_login k typed screen)
  unfolding press_login log_in
  press_login-Tended tab typed =
      plain-Tended (record screen { focus = next_field screen.focus }) refl refl refl same
  press_login-Tended enter typed =
      login_named-Tended (trim_space screen.nickname) screen.focus
        (validate_name (trim_space screen.nickname))
  press_login-Tended esc typed = type_login-Tended typed screen.focus
  press_login-Tended up typed = type_login-Tended typed screen.focus
  press_login-Tended down typed = type_login-Tended typed screen.focus
  press_login-Tended f2 typed = type_login-Tended typed screen.focus
  press_login-Tended f5 typed = type_login-Tended typed screen.focus
  press_login-Tended paste typed = type_login-Tended typed screen.focus
  press_login-Tended page_down typed = type_login-Tended typed screen.focus
  press_login-Tended top typed = type_login-Tended typed screen.focus
  press_login-Tended bottom typed = type_login-Tended typed screen.focus
  press_login-Tended interrupt typed = type_login-Tended typed screen.focus
  press_login-Tended other typed = type_login-Tended typed screen.focus
  press_login-Tended (page_up b) typed = type_login-Tended typed screen.focus

  named : Tended (record screen { focus = on_nickname })
  named = plain-Tended (record screen { focus = on_nickname }) refl refl refl same

  pub refocus-Tended : (ev : Event) → Tended (refocus ev screen)
  unfolding refocus
  refocus-Tended (status unauthorized text) =
      plain-Tended (record screen { access_key = []; focus = on_access_key }) refl refl refl same
  refocus-Tended (status name_taken text) = named
  refocus-Tended (status invalid_name text) = named
  refocus-Tended (status invalid_address text) = named
  refocus-Tended (status tls_error text) = named
  refocus-Tended (status unsupported_client text) = named
  refocus-Tended (status connected text) = t
  refocus-Tended (status connecting text) = t
  refocus-Tended (status disconnected text) = t
  refocus-Tended (status upgrade_required text) = t
  refocus-Tended (status (unknown_status name) text) = t
  refocus-Tended (frame arrived) = t
  refocus-Tended nothing = t
