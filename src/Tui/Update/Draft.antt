-- ===== src/Tui/Update/Draft.antt =====
-- A draft leaves the text field only with its message under way.
use spacechat.Prelude.{
  suc, ◌≡◌, refl, ap, ◌∙◌, ◌⊎◌, inl, inr, Bool, true, false, [], ◌∷◌, ◌++◌, Option, none, some,
  arith, Text, if◌then◌else◌, Result, ok, err, text_eq_refl,
}
use spacechat.Prelude.TextMap.{find, find-put}
use spacechat.Protocol.Validate.{TextError, validate_body}
use spacechat.Client.{Network, QueueError, Outgoing, queue, request_send, send}
use spacechat.Tui.Chat.{Chat, online_network, sent, send_id, send_valid, send_over, send_body}
use spacechat.Tui.Screen.{Screen}
use spacechat.Tui.Update.{send_draft}

-- The message with the body is the last of those that the client is to send, and waits for its answer.
abbrev pub UnderWay : Text → Chat → Chat → Type 0
UnderWay body before after =
    let request = send_id (suc before.sequence) in
    (validate_body body ≡ ok tt)
    × (before.connected ≡ true)
    × (find request after.pending ≡ some body)
    × ((old : Network) × (new : Network) × (before.network ≡ some old)
        × (after.network ≡ some new)
        × (new.outgoing ≡ old.outgoing ++ send request body ∷ []))

abbrev Sending : Text → Chat → Bool × Chat → Type 0
Sending body chat (false, after) = (after.pending ≡ chat.pending) × (after.network ≡ chat.network)
Sending body chat (true, after) = UnderWay body chat after

queue-outgoing :
    (request : Outgoing) (old new : Network)
    → queue request old ≡ ok new
    → new.outgoing ≡ old.outgoing ++ request ∷ []
unfolding queue
queue-outgoing request old new h = ground (arith, h)

request_send-outgoing :
    (request body : Text) (old new : Network)
    → validate_body body ≡ ok tt
    → request_send request body old ≡ ok new
    → new.outgoing ≡ old.outgoing ++ send request body ∷ []
unfolding request_send
request_send-outgoing request body old new v h =
    queue-outgoing (send request body) old new (ground (arith, v, h))

module _ (body : Text) (chat : Chat) where
  sent-Sending :
      (old : Network) (r : Result QueueError Network)
      → validate_body body ≡ ok tt
      → chat.connected ≡ true
      → chat.network ≡ some old
      → request_send (send_id (suc chat.sequence)) body old ≡ r
      → Sending body chat (sent body chat r)
  unfolding sent
  sent-Sending old (err e) v on n r = (refl, refl)
  sent-Sending old (ok new) v on n r = (
    v,
    on,
    find-put (send_id (suc chat.sequence)) (send_id (suc chat.sequence)) body chat.pending
        ∙ ap (λ b. if b then some body else find (send_id (suc chat.sequence)) chat.pending)
            (text_eq_refl (send_id (suc chat.sequence))),
    (old, new, n, refl, request_send-outgoing (send_id (suc chat.sequence)) body old new v r),
  )

  send_valid-Sending :
      (old : Network) (r : Result TextError (Unit {0}))
      → chat.connected ≡ true
      → chat.network ≡ some old
      → validate_body body ≡ r
      → Sending body chat (send_valid body old chat r)
  unfolding send_valid
  send_valid-Sending old (err e) on n v = (refl, refl)
  send_valid-Sending old (ok u) on n v =
      sent-Sending old (request_send (send_id (suc chat.sequence)) body old) v on n refl

  send_over-Sending :
      (on : Bool) (o : Option Network)
      → chat.connected ≡ on
      → chat.network ≡ o
      → Sending body chat (send_over body chat (online_network on o))
  unfolding send_over
  send_over-Sending false o c n = (refl, refl)
  send_over-Sending true none c n = (refl, refl)
  send_over-Sending true (some old) c n = send_valid-Sending old (validate_body body) c n refl

  send_body-Sending : Sending body chat (send_body body chat)
  unfolding send_body
  send_body-Sending = send_over-Sending chat.connected chat.network refl refl

send_draft-Sending :
    (screen : Screen) (r : Bool × Chat)
    → Sending screen.input screen.chat r
    → let after = send_draft screen r in
      ((after.input ≡ []) × UnderWay screen.input screen.chat after.chat)
      ⊎ ((after.input ≡ screen.input)
          × (after.chat.pending ≡ screen.chat.pending)
          × (after.chat.network ≡ screen.chat.network))
unfolding send_draft
send_draft-Sending screen (true, chat) s = inl (refl, s)
send_draft-Sending screen (false, chat) s = inr (refl, s.0, s.1)

-- "enter" in a room takes the draft out of the text field only if its body is valid and the client, with a connection
-- that is up, has its message as the last to be sent; the body then waits for an answer under the request's name.
-- Otherwise the draft, what waits and the client are as before.
pub send_draft-UnderWay :
    (screen : Screen)
    → let after = send_draft screen (send_body screen.input screen.chat) in
      ((after.input ≡ []) × UnderWay screen.input screen.chat after.chat)
      ⊎ ((after.input ≡ screen.input)
          × (after.chat.pending ≡ screen.chat.pending)
          × (after.chat.network ≡ screen.chat.network))
send_draft-UnderWay screen =
    send_draft-Sending screen (send_body screen.input screen.chat)
      (send_body-Sending screen.input screen.chat)
