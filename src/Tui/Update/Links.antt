-- ===== src/Tui/Update/Links.antt =====
-- What sending, scrolling and recalling leave of a chat's client.
use spacechat.Prelude.{
  ℕ, suc, ◌≡◌, refl, sym, ap, ◌∙◌, inl, inr, Bool, true, false, ◌||◌, not, List, [], ◌∷◌, Option,
  none, some, Text, if_intro, Result, ok, err,
}
use spacechat.Protocol.Validate.{TextError, validate_body}
use spacechat.Prelude.Int.{pos}
use spacechat.Protocol.Frames.{Message}
use spacechat.Client.{Network, QueueError, request_send, request_history}
use spacechat.Tui.Chat.{
  Chat, send_body, load_older, online_network, is_empty, sent, send_id, send_valid, send_over,
  older_asked, older_of,
}
use spacechat.Tui.Recall.{recallable, open_recall}
use spacechat.Tui.Recall.Confirmed.{Outcome}
use spacechat.Tui.Update.{runs, own_source}

-- The chat goes on with the same client, which may have moved.
abbrev pub Linked : Chat → Chat → Type 0
Linked chat after = (id : ℕ) → own_source id after ≡ own_source id chat

module _ (chat : Chat) where
  sent-Linked :
      (body : Text) (before : Network) (r : Result QueueError Network)
      → chat.network ≡ some before
      → Linked chat (sent body chat r).1
  unfolding sent
  sent-Linked body before (err e) n id = refl
  sent-Linked body before (ok network) n id = ap (λ o. runs id o chat.source) (sym n)

  send_valid-Linked :
      (body : Text) (before : Network) (r : Result TextError (Unit {0}))
      → chat.network ≡ some before
      → Linked chat (send_valid body before chat r).1
  unfolding send_valid
  send_valid-Linked body before (err e) n id = refl
  send_valid-Linked body before (ok u) n id =
      sent-Linked body before (request_send (send_id (suc chat.sequence)) body before) n id

  send_over-Linked :
      (body : Text) (on : Bool) (o : Option Network)
      → chat.network ≡ o
      → Linked chat (send_over body chat (online_network on o)).1
  unfolding send_over
  send_over-Linked body false o n id = refl
  send_over-Linked body true none n id = refl
  send_over-Linked body true (some before) n id =
      send_valid-Linked body before (validate_body body) n id

  pub send_body-Linked : (body : Text) → Linked chat (send_body body chat).1
  unfolding send_body
  send_body-Linked body = send_over-Linked body chat.connected chat.network refl

  older_asked-Linked :
      (before : Network) (r : Result QueueError Network)
      → chat.network ≡ some before
      → Linked chat (older_asked chat r)
  unfolding older_asked
  older_asked-Linked before (err e) n id = refl
  older_asked-Linked before (ok network) n id = ap (λ o. runs id o chat.source) (sym n)

  older_of-Linked :
      (ms : List Message) (on : Bool) (o : Option Network)
      → chat.network ≡ o
      → Linked chat (older_of chat ms (online_network on o))
  unfolding older_of
  older_of-Linked [] on o n id = refl
  older_of-Linked (m ∷ ms) false o n id = refl
  older_of-Linked (m ∷ ms) true none n id = refl
  older_of-Linked (m ∷ ms) true (some before) n id =
      older_asked-Linked before (request_history (pos m.id) before) n id

  pub load_older-Linked : (at_top : Bool) → Linked chat (load_older at_top chat)
  unfolding load_older
  load_older-Linked at_top =
      if_intro (Linked chat) (not at_top || not chat.has_more || chat.loading) (λ _ id. refl)
        (λ _. older_of-Linked chat.messages chat.connected chat.network refl)

  pub Outcome-Linked : (now id : ℕ) (after : Chat) → Outcome now id chat after → Linked chat after
  Outcome-Linked now id after (inl quiet) j =
      ap (λ o. runs j o after.source) quiet.1 ∙ ap (runs j chat.network) quiet.2
  Outcome-Linked now id after (inr asks) j =
      ap (runs j after.network) asks.5
      ∙ ap (λ o. runs j o chat.source) asks.2.4
      ∙ ap (λ o. runs j o chat.source) (sym asks.2.2)

  pub open_recall-Linked : (now : ℕ) → Linked chat (open_recall now chat)
  unfolding open_recall
  open_recall-Linked now =
      if_intro (Linked chat) (is_empty (recallable now chat.messages)) (λ _ id. refl) (λ _ id. refl)
