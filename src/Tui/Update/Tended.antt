-- ===== src/Tui/Update/Tended.antt =====
-- No client is forgotten: whatever is done, a client that was started has been cancelled, or is that of the room, or
-- that of the candidate.
use spacechat.Prelude.{
  ℕ, ◌≡◌, refl, sym, ap, ◌∙◌, Bool, true, false, ◌&&◌, ◌||◌, not, ◌==◌, List, [], ◌∷◌, Option, none,
  some, arith, Text, text_eq, any, all, if◌then◌else◌, if_intro, Result, ok, err,
}
use spacechat.Client.{Network}
use spacechat.Tui.Chat.{Event, is_empty}
use spacechat.Unicode.{trim_space}
use spacechat.Tui.Screen.{
  Screen, Dialog, Candidate, close, candidate_of, stop_chat, stop_candidate, joining_chat,
  SwitchNotice, no_switch_notice, waiting_for_result, discard_draft, cleared_check, result_unknown,
  send_failed,
}
use spacechat.Tui.Switch.{
  has_candidate, fail_switch, cancel_switch, start_candidate, submit_checked, submit_switch,
  check_target, with_dialog, is_settled, type_switch, answered_switch, is_cleared, is_disconnected,
}
use spacechat.Tui.Update.{runs, own_source}

abbrev pub candidate_runs : ℕ → Option Candidate → Bool
candidate_runs id none = false
candidate_runs id (some c) = own_source id c.chat

-- The client has been cancelled, or the room or the candidate has it.
abbrev pub is_tended : Screen → ℕ → Bool
is_tended screen id =
    any (λ c. c == id) screen.cancelled
    || own_source id screen.chat
    || candidate_runs id (candidate_of screen.switcher)

-- A dialog that waits for an answer has no candidate.
abbrev pub is_apart : Option Dialog → Bool
is_apart none = true
is_apart (some d) = not (d.waiting && has_candidate d.candidate)

abbrev pub Tended : Screen → Type 0
Tended screen =
    (all (λ p. is_tended screen p.0) screen.started ≡ true) × (is_apart screen.switcher ≡ true)

pub cancelled-stop_chat :
    (id : ℕ) (network : Option Network) (source : ℕ) (cs : List ℕ)
    → any (λ c. c == id) (stop_chat network source cs)
      ≡ runs id network source || any (λ c. c == id) cs
unfolding stop_chat
cancelled-stop_chat id none source cs = refl
cancelled-stop_chat id (some network) source cs = refl

pub cancelled-stop_candidate :
    (id : ℕ) (c : Option Candidate) (cs : List ℕ)
    → any (λ d. d == id) (stop_candidate c cs) ≡ candidate_runs id c || any (λ d. d == id) cs
unfolding stop_candidate
cancelled-stop_candidate id none cs = refl
cancelled-stop_candidate id (some c) cs = cancelled-stop_chat id c.chat.network c.chat.source cs

module _ {A : Type 0} (p q : A → Bool) where
  pub all_weaken :
      (xs : List A) → ((x : A) → p x ≡ true → q x ≡ true) → all p xs ≡ true → all q xs ≡ true
  all_weaken [] k h = refl
  all_weaken (x ∷ xs) k h = ground (arith, k x, all_weaken xs k)

-- What is tended stays so.
pub Tended-step :
    (before after : Screen)
    → after.started ≡ before.started
    → ((id : ℕ) → is_tended before id ≡ true → is_tended after id ≡ true)
    → is_apart after.switcher ≡ true
    → Tended before
    → Tended after
Tended-step before after e keep apart t = (
  ap (λ xs. all (λ p. is_tended after p.0) xs) e
      ∙ all_weaken (λ p. is_tended before p.0) (λ p. is_tended after p.0) before.started
          (λ p. keep p.0) t.0,
  apart,
)

pub close-Tended : (screen : Screen) → Tended screen → Tended (close screen)
unfolding close
close-Tended screen t =
    Tended-step screen (close screen) refl
      (λ id h. ground (
        arith,
        h,
        cancelled-stop_chat id screen.chat.network screen.chat.source
            (stop_candidate (candidate_of screen.switcher) screen.cancelled),
        cancelled-stop_candidate id (candidate_of screen.switcher) screen.cancelled,
      ))
      t.1 t

module _ (d : Dialog) (screen : Screen) (e : candidate_of screen.switcher ≡ d.candidate)
    (t : Tended screen) where
  pub fail_switch-Tended : (text : SwitchNotice) → Tended (fail_switch text d screen)
  unfolding fail_switch
  fail_switch-Tended text =
      Tended-step screen (fail_switch text d screen) refl
        (λ id h. ground (
          arith,
          h,
          ap (candidate_runs id) e,
          cancelled-stop_candidate id d.candidate screen.cancelled,
        ))
        refl t

  pub cancel_switch-Tended : Tended (cancel_switch d screen)
  unfolding cancel_switch
  cancel_switch-Tended =
      Tended-step screen (cancel_switch d screen) refl
        (λ id h. ground (
          arith,
          h,
          ap (candidate_runs id) e,
          cancelled-stop_candidate id d.candidate screen.cancelled,
        ))
        refl t

  pub with_dialog-Tended : is_apart (some d) ≡ true → Tended (with_dialog d screen)
  with_dialog-Tended apart =
      Tended-step screen (with_dialog d screen) refl
        (λ id h. ground (arith, h, ap (candidate_runs id) e)) apart t

module _ (d : Dialog) (screen : Screen) (e : candidate_of screen.switcher ≡ none)
    (f : d.candidate ≡ none) (t : Tended screen) where
  start_candidate-Tended : (name : Text) → Tended (start_candidate name d screen)
  unfolding start_candidate joining_chat
  start_candidate-Tended name =
      let after = start_candidate name d screen in
      (
        ground (
          arith,
          all_weaken (λ p. is_tended screen p.0) (λ p. is_tended after p.0) screen.started
              (λ p h. ground (arith, h, ap (candidate_runs p.0) e)) t.0,
        ),
        refl,
      )

  pub idle_dialog-Tended : (g : Dialog) → g.candidate ≡ none → Tended (with_dialog g screen)
  idle_dialog-Tended g n =
      with_dialog-Tended g screen (e ∙ sym n) t (ground (arith, ap has_candidate n))

  submit_checked-Tended :
      (name : Text) (r : Result SwitchNotice (Unit {0})) → Tended (submit_checked name d screen r)
  unfolding submit_checked
  submit_checked-Tended name (err text) = idle_dialog-Tended (record d { notice = text }) f
  submit_checked-Tended name (ok u) =
      if_intro Tended (not (is_settled screen.chat))
        (λ _.
          idle_dialog-Tended
            (record d { waiting = true; waiting_failed = false; notice = waiting_for_result }) f)
        (λ _.
          if_intro Tended (not (is_empty screen.input) && not d.confirm)
            (λ _. idle_dialog-Tended (record d { confirm = true; notice = discard_draft }) f)
            (λ _. start_candidate-Tended name))

  pub submit_switch-Tended : Tended (submit_switch d screen)
  unfolding submit_switch
  submit_switch-Tended =
      submit_checked-Tended (trim_space d.nickname)
        (check_target (trim_space d.nickname) d.key screen)

  pub type_switch-Tended :
      (typed : Text)
      → Tended (with_dialog (type_switch typed (record d { confirm = false })) screen)
  unfolding type_switch
  type_switch-Tended typed =
      let fresh = record d { confirm = false } in
      let after =
        if d.on_key then record fresh { key = typed } else record fresh { nickname = typed } in
      idle_dialog-Tended (type_switch typed fresh) (
        if_intro (λ g. g.candidate ≡ none) (text_eq (if d.on_key then d.key else d.nickname) typed)
          {x = after} {y = record after { confirm = false; notice = no_switch_notice }} (λ _. kept)
          (λ _. kept))
    where
      kept :
          (if d.on_key
            then record d { confirm = false; key = typed }
            else record d { confirm = false; nickname = typed }).candidate
          ≡ none
      kept = if_intro (λ (g : Dialog). g.candidate ≡ none) d.on_key (λ _. f) (λ _. f)

  pub answered_switch-Tended : (ev : Event) → Tended (answered_switch ev d screen)
  unfolding answered_switch
  answered_switch-Tended ev =
      if_intro Tended (is_cleared ev)
        (λ _. idle_dialog-Tended (record d { notice = cleared_check }) f)
        (λ _.
          if_intro Tended (is_disconnected ev)
            (λ _. idle_dialog-Tended (record d { notice = result_unknown }) f)
            (λ _.
              if_intro Tended d.waiting_failed
                (λ _. idle_dialog-Tended (record d { notice = send_failed }) f)
                (λ _. submit_switch-Tended)))
