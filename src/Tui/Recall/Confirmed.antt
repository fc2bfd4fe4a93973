-- ===== src/Tui/Recall/Confirmed.antt =====
-- What a recall asks for is what was confirmed.
use spacechat.Prelude.{
  ℕ, suc, ◌-◌, min, ◌≡◌, refl, ◌⊎◌, inl, inr, Bool, true, false, not, List, [], ◌∷◌, Option, none,
  some, arith, ◌==◌, if_intro, length, Result, ok, err, subst,
}
use spacechat.Prelude.Int.{pos}
use spacechat.Prelude.TextMap.{put}
use spacechat.Protocol.Frames.{Message}
use spacechat.Client.{Network, QueueError, request_recall}
use spacechat.Tui.Keys.{
  Key, esc, enter, up, down, f5, tab, f2, paste, page_down, top, bottom, interrupt, other, page_up,
}
use spacechat.Tui.Timeline.{has_id}
use spacechat.Tui.Chat.{
  Chat, RecallPicker, online_network, confirm_recall, expired, Event, apply_event,
}
use spacechat.Tui.Chat.Kept.{apply_event-Kept}
use spacechat.Tui.Recall.{
  recallable, recall_id, recall_asked, recall_over, nth, confirm_or_send, press_recall,
  update_recall, tell_picker,
}

-- No request goes out.
abbrev pub Quiet : Chat → Chat → Type 0
Quiet chat after =
    (after.recalls ≡ chat.recalls) × (after.network ≡ chat.network) × (after.source ≡ chat.source)

-- The client takes the request to recall the message with the id, which may be recalled still.
abbrev pub Asks : ℕ → ℕ → Chat → Chat → Type 0
Asks now id chat after =
    let request = recall_id (suc chat.sequence) in
    (has_id id (recallable now chat.messages) ≡ true)
    × (chat.connected ≡ true)
    × ((before : Network) × (network : Network) × (chat.network ≡ some before)
        × (request_recall request (pos id) before ≡ ok network)
        × (after.network ≡ some network))
    × (after.recalls ≡ put request id chat.recalls)
    × (after.recaller ≡ none)
    × (after.source ≡ chat.source)

abbrev pub Outcome : ℕ → ℕ → Chat → Chat → Type 0
Outcome now id chat after = Quiet chat after ⊎ Asks now id chat after

module _ (now : ℕ) (picker : RecallPicker) (chat : Chat) where
  recall_asked-Asks :
      (id : ℕ) (before : Network) (r : Result QueueError Network)
      → has_id id (recallable now chat.messages) ≡ true
      → chat.connected ≡ true
      → chat.network ≡ some before
      → request_recall (recall_id (suc chat.sequence)) (pos id) before ≡ r
      → Outcome now id chat (recall_asked picker id chat r)
  unfolding recall_asked
  recall_asked-Asks id before (err e) h on n r = inl (refl, refl, refl)
  recall_asked-Asks id before (ok network) h on n r =
      inr (h, on, (before, network, n, r, refl), refl, refl, refl)

  recall_over-Asks :
      (id : ℕ) (on : Bool) (network : Option Network)
      → has_id id (recallable now chat.messages) ≡ true
      → chat.connected ≡ on
      → chat.network ≡ network
      → Outcome now id chat (recall_over picker id chat (online_network on network))
  unfolding recall_over
  recall_over-Asks id false network h on n = inl (refl, refl, refl)
  recall_over-Asks id true none h on n = inl (refl, refl, refl)
  recall_over-Asks id true (some before) h on n = recall_asked-Asks id before _ h on n refl

  confirm_or_send-Asks :
      (m : Option Message)
      → Outcome now picker.confirm_id chat
          (confirm_or_send picker (recallable now chat.messages) chat m)
  unfolding confirm_or_send
  confirm_or_send-Asks none = inl (refl, refl, refl)
  confirm_or_send-Asks (some m) =
      if_intro (Outcome now picker.confirm_id chat) (picker.confirm_id == 0)
        {x = tell_picker (record picker { confirm_id = m.id }) confirm_recall chat}
        (λ _. inl (refl, refl, refl))
        (λ _.
          if_intro (Outcome now picker.confirm_id chat)
            (not (has_id picker.confirm_id (recallable now chat.messages)))
            {x = tell_picker (record picker { confirm_id = 0 }) expired chat}
            {y = recall_over picker picker.confirm_id chat
              (online_network chat.connected chat.network)}
            (λ _. inl (refl, refl, refl))
            (λ there.
              recall_over-Asks picker.confirm_id chat.connected chat.network (ground (arith, there))
                refl refl))

  press_recall-Asks :
      (k : Key)
      → Outcome now picker.confirm_id chat
          (press_recall k picker (recallable now chat.messages) chat)
  unfolding press_recall
  press_recall-Asks enter =
      confirm_or_send-Asks (nth picker.selected (recallable now chat.messages))
  press_recall-Asks esc = inl (refl, refl, refl)
  press_recall-Asks f5 = inl (refl, refl, refl)
  press_recall-Asks up = inl (refl, refl, refl)
  press_recall-Asks down = inl (refl, refl, refl)
  press_recall-Asks tab = inl (refl, refl, refl)
  press_recall-Asks f2 = inl (refl, refl, refl)
  press_recall-Asks paste = inl (refl, refl, refl)
  press_recall-Asks page_down = inl (refl, refl, refl)
  press_recall-Asks top = inl (refl, refl, refl)
  press_recall-Asks bottom = inl (refl, refl, refl)
  press_recall-Asks interrupt = inl (refl, refl, refl)
  press_recall-Asks other = inl (refl, refl, refl)
  press_recall-Asks (page_up b) = inl (refl, refl, refl)

pub update_recall-Asks :
    (now : ℕ) (k : Key) (picker : RecallPicker) (chat : Chat)
    → Outcome now picker.confirm_id chat (update_recall now k picker chat)
unfolding update_recall
update_recall-Asks now k picker chat =
    press_recall-Asks now
      (record picker { selected = min picker.selected (length (recallable now chat.messages) - 1) })
      chat k

-- What events make of the picker.
abbrev Stays : Option RecallPicker → Chat → Type 0
Stays before after = (after.recaller ≡ before) ⊎ (after.recaller ≡ none)

-- Events, one after another.
abbrev pub apply_events : List Event → Chat → Chat
apply_events [] chat = chat
apply_events (e ∷ es) chat = apply_events es (apply_event e chat)

apply_events-Stays : (es : List Event) (chat : Chat) → Stays chat.recaller (apply_events es chat)
apply_events-Stays [] chat = inl refl
apply_events-Stays (e ∷ es) chat =
    ground (arith, (apply_event-Kept e chat).0, apply_events-Stays es (apply_event e chat))

first_enter :
    (now : ℕ) (picker : RecallPicker) (chat : Chat) (m : Message)
    → picker.confirm_id ≡ 0
    → nth
        (min picker.selected (length (recallable now chat.messages) - 1))
        (recallable now chat.messages)
      ≡ some m
    → (q : RecallPicker) × ((update_recall now enter picker chat).recaller ≡ some q)
      × (q.confirm_id ≡ m.id)
unfolding update_recall press_recall confirm_or_send
first_enter now picker chat m z e = rw (e, z) (_, refl, refl)

-- Enter on a message asks for confirmation. Whatever events come then, and whatever key follows while the picker
-- is open, a recall goes out at that key only for this message, over a connection that is up, if the message is on
-- the screen and may still be recalled by the clock of that moment; or nothing goes out.
pub second_key :
    (now later : ℕ) (k : Key) (picker q : RecallPicker) (chat : Chat) (m : Message)
    (es : List Event)
    → picker.confirm_id ≡ 0
    → nth
        (min picker.selected (length (recallable now chat.messages) - 1))
        (recallable now chat.messages)
      ≡ some m
    → (apply_events es (update_recall now enter picker chat)).recaller ≡ some q
    → let waiting = apply_events es (update_recall now enter picker chat) in
      Quiet waiting (update_recall later k q waiting)
      ⊎ Asks later m.id waiting (update_recall later k q waiting)
second_key now later k picker q chat m es z e open_still =
    let waiting = apply_events es (update_recall now enter picker chat) in
    let first = first_enter now picker chat m z e in
    let same : q.confirm_id ≡ m.id =
      ground (arith, first.2, apply_events-Stays es (update_recall now enter picker chat)) in
    subst (λ id. Outcome later id waiting (update_recall later k q waiting)) same
      (update_recall-Asks later k q waiting)
