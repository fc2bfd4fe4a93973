-- ===== src/Tui/Chat/Kept.antt =====
-- What an event does not touch.
use spacechat.Prelude.{
  ◌≡◌, refl, ◌⊎◌, inl, inr, Bool, true, false, List, Option, none, some, Text, codes, text_eq,
  if_intro,
}
use spacechat.Prelude.TextMap.{find, remove}
use spacechat.Protocol.Frames.{Message, Page, Failure, Code, Welcome, Recalled, Kind}
use spacechat.Client.{Incoming}
use spacechat.Tui.Chat.{
  Chat, Event, Status, failed_with, status, frame, nothing, connected, connecting, disconnected,
  unauthorized, upgrade_required, name_taken, invalid_name, invalid_address, tls_error,
  unsupported_client, unknown_status, is_empty, disconnect, apply_status, apply_welcome,
  apply_presence, apply_page, apply_message, apply_recalled, apply_failed, apply_error, apply_frame,
  apply_event, clear_history, refuse_join,
}

-- The client stays, and the picker stays or is closed.
abbrev pub Kept : Chat → Chat → Type 0
Kept before after =
    ((after.recaller ≡ before.recaller) ⊎ (after.recaller ≡ none))
    × (after.network ≡ before.network)
    × (after.source ≡ before.source)

module _ (chat : Chat) where
  apply_status-Kept : (s : Status) (text : Text) → Kept chat (apply_status s text chat)
  unfolding apply_status disconnect refuse_join
  apply_status-Kept connected text = (inl refl, refl, refl)
  apply_status-Kept disconnected text =
      if_intro (Kept chat) (is_empty chat.pending) (λ _. (inl refl, refl, refl))
        (λ _. (inl refl, refl, refl))
  apply_status-Kept connecting text = (inl refl, refl, refl)
  apply_status-Kept unauthorized text = (inl refl, refl, refl)
  apply_status-Kept name_taken text = (inl refl, refl, refl)
  apply_status-Kept invalid_name text = (inl refl, refl, refl)
  apply_status-Kept invalid_address text = (inl refl, refl, refl)
  apply_status-Kept tls_error text = (inl refl, refl, refl)
  apply_status-Kept unsupported_client text = (inl refl, refl, refl)
  apply_status-Kept upgrade_required text = (inl refl, refl, refl)
  apply_status-Kept (unknown_status name) text = (inl refl, refl, refl)

  apply_welcome-Kept : (o : Option Welcome) → Kept chat (apply_welcome o chat)
  unfolding apply_welcome
  apply_welcome-Kept none = (inl refl, refl, refl)
  apply_welcome-Kept (some w) =
      if_intro (Kept chat) w.resumed (λ _. (inl refl, refl, refl)) (λ _. (inl refl, refl, refl))

  apply_presence-Kept : (o : Option (List Text)) → Kept chat (apply_presence o chat)
  unfolding apply_presence
  apply_presence-Kept none = (inl refl, refl, refl)
  apply_presence-Kept (some users) = (inl refl, refl, refl)

  apply_page-Kept : (is_history : Bool) (o : Option Page) → Kept chat (apply_page is_history o chat)
  unfolding apply_page
  apply_page-Kept is_history none = (inl refl, refl, refl)
  apply_page-Kept is_history (some p) =
      if_intro (Kept chat) is_history (λ _. (inl refl, refl, refl)) (λ _. (inl refl, refl, refl))

  apply_message-Kept :
      (told : Bool) (request : Text) (o : Option Message)
      → Kept chat (apply_message told request o chat)
  unfolding apply_message
  apply_message-Kept told request none = (inl refl, refl, refl)
  apply_message-Kept told request (some m) = (inl refl, refl, refl)

  apply_recalled-Kept :
      (request : Text) (o : Option Recalled) → Kept chat (apply_recalled request o chat)
  unfolding apply_recalled
  apply_recalled-Kept request none = (inl refl, refl, refl)
  apply_recalled-Kept request (some r) = (inl refl, refl, refl)

  apply_failed-Kept :
      (request : Text) (code : Code) (o : Option Text)
      → Kept chat (apply_failed request code o chat)
  unfolding apply_failed
  apply_failed-Kept request code none = (inl refl, refl, refl)
  apply_failed-Kept request code (some body) = (inl refl, refl, refl)

apply_error-Kept :
    (request : Text) (o : Option Failure) (chat : Chat) → Kept chat (apply_error request o chat)
unfolding apply_error
apply_error-Kept request none chat = (inl refl, refl, refl)
apply_error-Kept request (some f) chat =
    let told = record chat { notice = failed_with f.code; recalls = remove request chat.recalls } in
    let kept = apply_failed-Kept told request f.code (find request chat.pending) in
    if_intro (Kept chat) (text_eq request (codes "older")) (λ _. kept) (λ _. kept)

module _ (chat : Chat) (arrived : Incoming) where
  apply_frame-Kept : (kind : Kind) → Kept chat (apply_frame kind arrived chat)
  unfolding apply_frame clear_history
  apply_frame-Kept Kind.welcome = apply_welcome-Kept chat arrived.payload.as_welcome
  apply_frame-Kept Kind.presence = apply_presence-Kept chat arrived.payload.as_presence
  apply_frame-Kept Kind.history = apply_page-Kept chat true arrived.payload.as_page
  apply_frame-Kept Kind.sync = apply_page-Kept chat false arrived.payload.as_page
  apply_frame-Kept Kind.message =
      apply_message-Kept chat true arrived.request_id arrived.payload.as_message
  apply_frame-Kept Kind.ack =
      apply_message-Kept chat false arrived.request_id arrived.payload.as_message
  apply_frame-Kept Kind.recalled =
      apply_recalled-Kept chat arrived.request_id arrived.payload.as_recalled
  apply_frame-Kept Kind.error = apply_error-Kept arrived.request_id arrived.payload.as_failure chat
  apply_frame-Kept Kind.join = (inl refl, refl, refl)
  apply_frame-Kept Kind.send = (inl refl, refl, refl)
  apply_frame-Kept Kind.recall = (inl refl, refl, refl)
  apply_frame-Kept Kind.sync_complete = (inl refl, refl, refl)
  apply_frame-Kept (Kind.other name) =
      if_intro (Kept chat) (text_eq name (codes "history_cleared")) (λ _. (inr refl, refl, refl))
        (λ _. (inl refl, refl, refl))

pub apply_event-Kept : (e : Event) (chat : Chat) → Kept chat (apply_event e chat)
unfolding apply_event
apply_event-Kept (status s text) chat = apply_status-Kept chat s text
apply_event-Kept (frame arrived) chat = apply_frame-Kept chat arrived arrived.kind
apply_event-Kept nothing chat = (inl refl, refl, refl)
