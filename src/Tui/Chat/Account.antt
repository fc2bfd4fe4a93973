-- ===== src/Tui/Chat/Account.antt =====
-- What becomes of the messages that wait for an answer.
use spacechat.Prelude.{
  ◌≡◌, refl, sym, ◌⊎◌, inl, inr, Bool, true, false, not, ◌&&◌, List, [], ◌∷◌, ◌++◌, Option, none,
  some, arith, Text, codes, text_eq, text_eq_iff, if_intro, Bool-cases, subst, Option-cases,
}
use spacechat.Prelude.TextMap.{find, remove, find-remove}
use spacechat.Protocol.Frames.{Message, Page, Failure, Code, Welcome, Recalled, Kind}
use spacechat.Client.{Incoming}
use spacechat.Tui.Chat.{
  Chat, Event, Status, failed_with, Issue, result_unknown, send_failed, status, frame, nothing,
  connected, connecting, disconnected, unauthorized, upgrade_required, name_taken, invalid_name,
  invalid_address, tls_error, unsupported_client, unknown_status, is_empty, unknown_issues,
  disconnect, apply_status, apply_welcome, apply_presence, apply_page, apply_message,
  apply_recalled, apply_failed, apply_error, apply_frame, apply_event, clear_history, refuse_join,
}

-- An issue is listed.
abbrev pub Listed : Issue → List Issue → Type 0
Listed i [] = ⊥
Listed i (j ∷ js) = (j ≡ i) ⊎ Listed i js

Listed-append_left : (i : Issue) (is js : List Issue) → Listed i is → Listed i (is ++ js)
Listed-append_left i [] js h = absurd h
Listed-append_left i (j ∷ is) js (inl h) = inl h
Listed-append_left i (j ∷ is) js (inr h) = inr (Listed-append_left i is js h)

Listed-append_right : (i : Issue) (is js : List Issue) → Listed i js → Listed i (is ++ js)
Listed-append_right i [] js h = h
Listed-append_right i (j ∷ is) js h = inr (Listed-append_right i is js h)

Listed-unknown_issues :
    (id body : Text) (pending : List (Text × Text))
    → find id pending ≡ some body
    → Listed (result_unknown body) (unknown_issues pending)
unfolding find
Listed-unknown_issues id body [] h = cc
Listed-unknown_issues id body ((k, b) ∷ pending) h = elim (Bool-cases (text_eq k id)) [
  | inl hit ↦ inl (ground (arith, hit, h))
  | inr miss ↦ inr (Listed-unknown_issues id body pending (ground (arith, miss, h)))
]

abbrev is_some : {A : Type 0} → Option A → Bool
is_some none = false
is_some (some a) = true

abbrev answer_kind : Kind → Bool
answer_kind Kind.message = true
answer_kind Kind.ack = true
answer_kind _ = false

-- The event is a message or an acknowledgement that answers the request.
unfoldable pub answers : Text → Event → Bool
answers id (frame arrived) =
    answer_kind arrived.kind && text_eq arrived.request_id id && is_some arrived.payload.as_message
answers id _ = false

abbrev is_new : Option Welcome → Bool
is_new none = false
is_new (some w) = not w.resumed

abbrev discarding : Kind → Incoming → Bool
discarding Kind.welcome arrived = is_new arrived.payload.as_welcome
discarding (Kind.other name) arrived = text_eq name (codes "history_cleared")
discarding _ arrived = false

-- The event says that the server's history is another one now.
unfoldable pub discards : Event → Bool
discards (frame arrived) = discarding arrived.kind arrived
discards _ = false

-- The request still waits, or its body is listed as failed or as without a known result.
abbrev pub Accounted : Text → Text → Chat → Type 0
Accounted id body chat =
    (find id chat.pending ≡ some body)
    ⊎ Listed (result_unknown body) chat.issues
    ⊎ ((code : Code) × Listed (send_failed body code) chat.issues)

module _ (id body : Text) where
  disconnect-Accounted :
      (chat : Chat) → find id chat.pending ≡ some body → Accounted id body (disconnect chat)
  unfolding disconnect
  disconnect-Accounted chat h =
      if_intro (Accounted id body) (is_empty chat.pending) (λ _. inl h)
        (λ _. inr (
          inl (Listed-append_right _ chat.issues _ (Listed-unknown_issues id body chat.pending h))))

  apply_status-Accounted :
      (s : Status) (text : Text) (chat : Chat)
      → find id chat.pending ≡ some body
      → Accounted id body (apply_status s text chat)
  unfolding apply_status refuse_join
  apply_status-Accounted connected text chat h = inl h
  apply_status-Accounted connecting text chat h = inl h
  apply_status-Accounted disconnected text chat h = disconnect-Accounted chat h
  apply_status-Accounted unauthorized text chat h = inl h
  apply_status-Accounted upgrade_required text chat h = inl h
  apply_status-Accounted name_taken text chat h = inl h
  apply_status-Accounted invalid_name text chat h = inl h
  apply_status-Accounted invalid_address text chat h = inl h
  apply_status-Accounted tls_error text chat h = inl h
  apply_status-Accounted unsupported_client text chat h = inl h
  apply_status-Accounted (unknown_status n) text chat h = inl h

  apply_message-Accounted :
      (is_message : Bool) (request : Text) (o : Option Message) (chat : Chat)
      → find id chat.pending ≡ some body
      → (text_eq request id && is_some o ≡ true)
        ⊎ Accounted id body (apply_message is_message request o chat)
  unfolding apply_message
  apply_message-Accounted is_message request none chat h = inr (inl h)
  apply_message-Accounted is_message request (some m) chat h =
      elim (Bool-cases (text_eq request id)) [
        | inl same ↦ inl (ground (arith, same))
        | inr apart ↦ inr (inl (ground (arith, find-remove request id chat.pending, apart, h)))
      ]

  apply_failed-Accounted :
      (request : Text) (code : Code) (chat : Chat)
      → find id chat.pending ≡ some body
      → Accounted id body (apply_failed request code (find request chat.pending) chat)
  unfolding apply_failed
  apply_failed-Accounted request code chat h = elim (Bool-cases (text_eq request id)) [
    | inl same ↦
        let e = (text_eq_iff request id).0 same in
        rw (subst (λ r. find r chat.pending ≡ some body) (sym e) h)
          (inr (inr (code, Listed-append_right _ chat.issues _ (inl refl))))
    | inr apart ↦ elim (Option-cases (find request chat.pending)) [
      | inl missing ↦ rw missing (inl h)
      | inr (b, there) ↦
          rw there (inl (ground (arith, find-remove request id chat.pending, apart, h)))
    ]
  ]

  apply_error-Accounted :
      (request : Text) (o : Option Failure) (chat : Chat)
      → find id chat.pending ≡ some body
      → Accounted id body (apply_error request o chat)
  unfolding apply_error
  apply_error-Accounted request none chat h = inl h
  apply_error-Accounted request (some f) chat h =
      let told =
        apply_failed-Accounted request f.code
          (record chat { notice = failed_with f.code; recalls = remove request chat.recalls }) h in
      if_intro (Accounted id body) (text_eq request (codes "older")) (λ _. told) (λ _. told)

  apply_welcome-Accounted :
      (o : Option Welcome) (chat : Chat)
      → find id chat.pending ≡ some body
      → (is_new o ≡ true) ⊎ Accounted id body (apply_welcome o chat)
  unfolding apply_welcome
  apply_welcome-Accounted none chat h = inr (inl h)
  apply_welcome-Accounted (some w) chat h = elim (Bool-cases w.resumed) [
    | inl again ↦
        inr (if_intro (Accounted id body) w.resumed (λ _. inl h) (λ no_. absurd (ground arith)))
    | inr fresh ↦ inl (ground (arith, fresh))
  ]

  apply_presence-Accounted :
      (o : Option (List Text)) (chat : Chat)
      → find id chat.pending ≡ some body
      → Accounted id body (apply_presence o chat)
  unfolding apply_presence
  apply_presence-Accounted none chat h = inl h
  apply_presence-Accounted (some users) chat h = inl h

  apply_page-Accounted :
      (is_history : Bool) (o : Option Page) (chat : Chat)
      → find id chat.pending ≡ some body
      → Accounted id body (apply_page is_history o chat)
  unfolding apply_page
  apply_page-Accounted is_history none chat h = inl h
  apply_page-Accounted true (some p) chat h = inl h
  apply_page-Accounted false (some p) chat h = inl h

  apply_recalled-Accounted :
      (request : Text) (o : Option Recalled) (chat : Chat)
      → find id chat.pending ≡ some body
      → Accounted id body (apply_recalled request o chat)
  unfolding apply_recalled
  apply_recalled-Accounted request none chat h = inl h
  apply_recalled-Accounted request (some r) chat h = inl h

  apply_frame-Accounted :
      (kind : Kind) (arrived : Incoming) (chat : Chat)
      → find id chat.pending ≡ some body
      → (answer_kind kind && text_eq arrived.request_id id && is_some arrived.payload.as_message
          ≡ true)
        ⊎ (discarding kind arrived ≡ true)
        ⊎ Accounted id body (apply_frame kind arrived chat)
  unfolding apply_frame
  apply_frame-Accounted Kind.welcome arrived chat h =
      inr (apply_welcome-Accounted arrived.payload.as_welcome chat h)
  apply_frame-Accounted Kind.presence arrived chat h =
      inr (inr (apply_presence-Accounted arrived.payload.as_presence chat h))
  apply_frame-Accounted Kind.history arrived chat h =
      inr (inr (apply_page-Accounted true arrived.payload.as_page chat h))
  apply_frame-Accounted Kind.sync arrived chat h =
      inr (inr (apply_page-Accounted false arrived.payload.as_page chat h))
  apply_frame-Accounted Kind.message arrived chat h =
      elim (apply_message-Accounted true arrived.request_id arrived.payload.as_message chat h) [
        | inl a ↦ inl a
        | inr k ↦ inr (inr k)
      ]
  apply_frame-Accounted Kind.ack arrived chat h =
      elim (apply_message-Accounted false arrived.request_id arrived.payload.as_message chat h) [
        | inl a ↦ inl a
        | inr k ↦ inr (inr k)
      ]
  apply_frame-Accounted Kind.recalled arrived chat h =
      inr (inr (apply_recalled-Accounted arrived.request_id arrived.payload.as_recalled chat h))
  apply_frame-Accounted Kind.error arrived chat h =
      inr (inr (apply_error-Accounted arrived.request_id arrived.payload.as_failure chat h))
  apply_frame-Accounted Kind.join arrived chat h = inr (inr (inl h))
  apply_frame-Accounted Kind.send arrived chat h = inr (inr (inl h))
  apply_frame-Accounted Kind.recall arrived chat h = inr (inr (inl h))
  apply_frame-Accounted Kind.sync_complete arrived chat h = inr (inr (inl h))
  apply_frame-Accounted (Kind.other name) arrived chat h =
      elim (Bool-cases (text_eq name (codes "history_cleared"))) [
        | inl gone ↦ inr (inl gone)
        | inr stays ↦ inr (
            inr (
              if_intro (Accounted id body) (text_eq name (codes "history_cleared"))
                {x = clear_history chat} (λ yes_. absurd (ground arith)) (λ _. inl h)))
      ]

  -- A message that waits for an answer is never dropped in silence: after any event it still waits under its
  -- request, or its body is listed as failed or as without a known result, unless the event answers the
  -- request or says that the server's history is another one.
  pub apply_event-Accounted :
      (e : Event) (chat : Chat)
      → find id chat.pending ≡ some body
      → (answers id e ≡ true) ⊎ (discards e ≡ true) ⊎ Accounted id body (apply_event e chat)
  unfolding apply_event answers discards
  apply_event-Accounted (status s text) chat h = inr (inr (apply_status-Accounted s text chat h))
  apply_event-Accounted (frame arrived) chat h = apply_frame-Accounted arrived.kind arrived chat h
  apply_event-Accounted nothing chat h = inr (inr (inl h))
