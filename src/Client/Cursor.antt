-- ===== src/Client/Cursor.antt =====
-- The cursor of a client and the cursor that the server keeps for it.
use spacechat.Prelude.{
  ℕ, ◌<◌, ◌≡◌, refl, ap, ◌∙◌, true, List, [], ◌∷◌, ◌++◌, some, arith, length, ok,
}
use spacechat.Prelude.Int.{pos}
use spacechat.Protocol.Frames.{Message, Page, Kind}
use spacechat.Pages.{last_id, Ascending}
use spacechat.Client.{Incoming, Network, sync, frame, advance, receive, receive_page, ask_next}

advance-last_id :
    (cursor : ℕ) (ms : List Message) → Ascending cursor ms → advance cursor ms ≡ last_id cursor ms
unfolding advance last_id
advance-last_id cursor [] a = refl
advance-last_id cursor (m ∷ ms) a =
    ap (λ n. advance n ms) (omega arith) ∙ advance-last_id m.id ms a.1

-- A client that has the server's cursor, and gets a page of the synchronisation that goes on from there
-- and has a successor, asks for the next page from the cursor to which the server moved.
pub receive-next :
    (arrived : Incoming) (p : Page) (network : Network)
    → arrived.payload.as_page ≡ some p
    → Ascending network.cursor p.messages
    → p.has_more ≡ true
    → 0 < length p.messages
    → (after : Network) × (receive true true Kind.sync arrived network ≡ ok after)
      × (after.cursor ≡ last_id network.cursor p.messages)
      × (after.outgoing
          ≡ network.outgoing
            ++ sync
                (record { before_id = pos 0; after_id = pos (last_id network.cursor p.messages) })
              ∷ [])
unfolding receive receive_page ask_next
receive-next arrived p network page rising more some_message =
    let moved = advance-last_id network.cursor p.messages rising in
    let after = record network {
      events = network.events ++ frame arrived ∷ [];
      cursor = advance network.cursor p.messages;
      outgoing =
          network.outgoing
          ++ sync (record { before_id = pos 0; after_id = pos (advance network.cursor p.messages) })
            ∷ [];
    } in
    (
      after,
      ground (arith, page, more, some_message),
      moved,
      ap (λ n. network.outgoing ++ sync (record { before_id = pos 0; after_id = pos n }) ∷ [])
          moved,
    )
