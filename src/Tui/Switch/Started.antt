-- ===== src/Tui/Switch/Started.antt =====
-- When the dialog starts a client for another room, and what the room loses until it is left.
use spacechat.Prelude.{
  ℕ, any, ◌==◌, Option, some, ◌≡◌, refl, ◌⊎◌, inl, inr, Bool, true, false, ◌&&◌, ◌||◌, not, List,
  [], ◌∷◌, none, arith, Text, text_eq, if_intro, Result, ok, err,
}
use spacechat.Unicode.{trim_space}
use spacechat.AccessKey.{KeyError, validate_key}
use spacechat.Protocol.Validate.{TextError, validate_name}
use spacechat.Tui.Chat.{
  Event, Status, status, frame, nothing, connected, connecting, disconnected, unauthorized,
  upgrade_required, name_taken, invalid_name, invalid_address, tls_error, unsupported_client,
  unknown_status, is_empty, online, switched_room, apply_event, apply_status,
}
use spacechat.Client.{Network}
use spacechat.Tui.Screen.{
  Screen, Dialog, Candidate, SwitchNotice, discard_draft, waiting_for_result, stop_chat,
}
use spacechat.Tui.Switch.{
  or_bad_key, or_bad_name, check_target, start_candidate, is_settled, with_dialog, submit_checked,
  submit_switch, fail_switch, enter_room, candidate_status, candidate_told, candidate_event,
}

-- The room, its draft and its key are as they were.
abbrev pub Untouched : Screen → Screen → Type 0
Untouched before after =
    (after.chat ≡ before.chat)
    × (after.input ≡ before.input)
    × (after.access_key ≡ before.access_key)

-- The dialog names another room that may be entered, nothing of this room waits for an answer, and its draft is empty
-- or given up.
abbrev pub MayLeave : Dialog → Screen → Type 0
MayLeave d screen =
    let name = trim_space d.nickname in
    (validate_key d.key ≡ ok tt)
    × (validate_name name ≡ ok tt)
    × (text_eq d.key screen.access_key && text_eq name screen.chat.name ≡ false)
    × (screen.chat.pending ≡ [])
    × (screen.chat.recalls ≡ [])
    × ((screen.input ≡ []) ⊎ (d.confirm ≡ true))

or_bad_key-ok : (r : Result KeyError (Unit {0})) → or_bad_key r ≡ ok tt → r ≡ ok tt
or_bad_key-ok (ok u) h = refl
or_bad_key-ok (err e) h = cc

or_bad_name-ok : (r : Result TextError (Unit {0})) → or_bad_name r ≡ ok tt → r ≡ ok tt
or_bad_name-ok (ok u) h = refl
or_bad_name-ok (err e) h = cc

check_target-ok :
    (name key : Text) (screen : Screen)
    → check_target name key screen ≡ ok tt
    → (validate_key key ≡ ok tt)
      × (validate_name name ≡ ok tt)
      × (text_eq key screen.access_key && text_eq name screen.chat.name ≡ false)
unfolding check_target
check_target-ok name key screen h =
    ground (arith, h, or_bad_key-ok (validate_key key), or_bad_name-ok (validate_name name))

is_empty-nil : {A : Type 0} (xs : List A) → is_empty xs ≡ true → xs ≡ []
is_empty-nil [] h = refl
is_empty-nil (x ∷ xs) h = cc

-- No client is started, or one with what the dialog holds, and the dialog may leave the room then.
abbrev pub Submitted : Dialog → Screen → Screen → Type 0
Submitted d screen after =
    Untouched screen after
    × (after.cancelled ≡ screen.cancelled)
    × ((after.started ≡ screen.started)
        ⊎ (MayLeave d screen
            × (after.started ≡ (screen.clients, (trim_space d.nickname, d.key)) ∷ screen.started)))

module _ (d : Dialog) (screen : Screen) where
  stays : (g : Dialog) → Submitted d screen (with_dialog g screen)
  stays g = ((refl, refl, refl), refl, inl refl)

  settled : is_settled screen.chat ≡ true → (screen.chat.pending ≡ []) × (screen.chat.recalls ≡ [])
  settled h = ground (arith, h, is_empty-nil screen.chat.pending, is_empty-nil screen.chat.recalls)

  submit_checked-Submitted :
      (r : Result SwitchNotice (Unit {0}))
      → check_target (trim_space d.nickname) d.key screen ≡ r
      → Submitted d screen (submit_checked (trim_space d.nickname) d screen r)
  unfolding submit_checked start_candidate
  submit_checked-Submitted (err text) e = stays (record d { notice = text })
  submit_checked-Submitted (ok u) e =
      let named = check_target-ok (trim_space d.nickname) d.key screen e in
      if_intro (Submitted d screen) (not (is_settled screen.chat))
        (λ _.
          stays (record d { waiting = true; waiting_failed = false; notice = waiting_for_result }))
        (λ calm.
          if_intro (Submitted d screen) (not (is_empty screen.input) && not d.confirm)
            {x = with_dialog (record d { confirm = true; notice = discard_draft }) screen}
            {y = start_candidate (trim_space d.nickname) d screen}
            (λ _. stays (record d { confirm = true; notice = discard_draft }))
            (λ free.
              let done = settled (ground (arith, calm)) in
              (
                (refl, refl, refl),
                refl,
                inr (
                  (
                    named.0,
                    named.1,
                    named.2,
                    done.0,
                    done.1,
                    ground (arith, free, is_empty-nil screen.input),
                  ),
                  refl,
                ),
              )))

-- Submitting the dialog of a switch leaves the room, its draft and its key as they are and cancels nothing. It starts
-- a client at most once, with the trimmed name and the key of the dialog, and only if both are valid, they differ
-- from the room's, no message and no recall waits for an answer, and the draft is empty or was given up before.
pub submit_switch-Submitted :
    (d : Dialog) (screen : Screen) → Submitted d screen (submit_switch d screen)
unfolding submit_switch
submit_switch-Submitted d screen =
    submit_checked-Submitted d screen (check_target (trim_space d.nickname) d.key screen) refl

-- The client of a room, if it has one, has been told to end.
abbrev pub is_stopped : Option Network → ℕ → List ℕ → Bool
is_stopped none source cancelled = true
is_stopped (some network) source cancelled = any (λ s. s == source) cancelled

-- The screen shows the candidate's room as the candidate held it, online and with the notice of the
-- switch, with its name, its key and no draft, and the client of the room before has been stopped.
abbrev pub Entered : Candidate → Screen → Screen → Type 0
Entered c before after =
    (after.switcher ≡ none)
    × (after.chat ≡ record c.chat { connected = true; state = online; notice = switched_room })
    × (after.nickname ≡ c.chat.name)
    × (after.access_key ≡ c.access_key)
    × (after.input ≡ [])
    × (is_stopped before.chat.network before.chat.source after.cancelled ≡ true)

abbrev is_connected : Event → Bool
is_connected (status connected text) = true
is_connected e = false

module _ (closed : Bool) (e : Event) (c : Candidate) (d : Dialog) (screen : Screen) where
  abbrev pub Led : Screen → Type 0
  Led after =
      ((closed ≡ false) × (is_connected e ≡ true) × Entered c screen after)
      ⊎ ((closed || not (is_connected e) ≡ true) × Untouched screen after)

stop_chat-is_stopped :
    (network : Option Network) (source : ℕ) (cancelled : List ℕ)
    → is_stopped network source (stop_chat network source cancelled) ≡ true
unfolding stop_chat
stop_chat-is_stopped none source cancelled = refl
stop_chat-is_stopped (some network) source cancelled = ground arith

module _ (c : Candidate) (d : Dialog) (screen : Screen) where
  candidate_status-Led :
      (s : Status) (text : Text)
      → Led false (status s text) c d screen (candidate_status s text c d screen)
  unfolding candidate_status enter_room fail_switch apply_event apply_status
  candidate_status-Led connected text = inl (
    refl,
    refl,
    (
      refl,
      refl,
      refl,
      refl,
      refl,
      stop_chat-is_stopped screen.chat.network screen.chat.source screen.cancelled,
    ),
  )
  candidate_status-Led disconnected text = inr (refl, (refl, refl, refl))
  candidate_status-Led connecting text = inr (refl, (refl, refl, refl))
  candidate_status-Led unauthorized text = inr (refl, (refl, refl, refl))
  candidate_status-Led name_taken text = inr (refl, (refl, refl, refl))
  candidate_status-Led invalid_name text = inr (refl, (refl, refl, refl))
  candidate_status-Led invalid_address text = inr (refl, (refl, refl, refl))
  candidate_status-Led tls_error text = inr (refl, (refl, refl, refl))
  candidate_status-Led unsupported_client text = inr (refl, (refl, refl, refl))
  candidate_status-Led upgrade_required text = inr (refl, (refl, refl, refl))
  candidate_status-Led (unknown_status name) text = inr (refl, (refl, refl, refl))

-- Whatever the candidate's client reports, the room, its draft and its key stay as they are, until it reports that it is
-- connected while its events are open: then the candidate's room takes their place as the candidate held it, with its
-- name, messages, users, waiting requests and client, online and with the notice of the switch; the draft is empty, the
-- key is the candidate's, and the client of the room before, if it had one, has been told to end.
pub candidate_event-Led :
    (closed : Bool) (e : Event) (c : Candidate) (d : Dialog) (screen : Screen)
    → Led closed e c d screen (candidate_event closed e c d screen)
unfolding candidate_event candidate_told fail_switch
candidate_event-Led true e c d screen = inr (refl, (refl, refl, refl))
candidate_event-Led false (status s text) c d screen = candidate_status-Led c d screen s text
candidate_event-Led false (frame arrived) c d screen = inr (refl, (refl, refl, refl))
candidate_event-Led false nothing c d screen = inr (refl, (refl, refl, refl))
