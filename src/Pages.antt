-- ===== src/Pages.antt =====
-- The paging that `Store.Page` (internal/store/store.go) and `Room.Page`
-- (internal/securestore/room.go) share: the query over a table in the order of its ids, and what is
-- done with the rows that it returns.
pub mod Bounds
pub mod Sync
pub mod History
use spacechat.Prelude.{
  ℕ, Option, none, some, ◌==◌, ◌+◌, ◌≤◌, ◌<◌, Bool, true, ◌&&◌, ◌||◌, List, [], ◌∷◌, map, Text, ltb,
  leb, if◌then◌else◌, filter, take, length, reverse,
}
use spacechat.Prelude.Int.{ℤ, pos, negsuc, ltb_ℤ}
use spacechat.Protocol.Frames.{Message, Page, page_size}

-- `ascending := after > 0 || before < 0`
unfoldable pub is_ascending : ℤ → ℤ → Bool
is_ascending before after = ltb_ℤ (pos 0) after || ltb_ℤ before (pos 0)

-- The `WHERE` clause on an id: `id<=?`, and the conditions that are added to it.
unfoldable pub selects : ℤ → ℤ → ℕ → ℕ → Bool
selects before after through id =
    leb id through
    && (if ltb_ℤ (pos 0) before then ltb_ℤ (pos id) before else true)
    && (if is_ascending before after then ltb_ℤ after (pos id) else true)

-- The rows of a query, `ORDER BY id` one way or the other and `LIMIT PageSize+1`.
module _ {R : Type 0} (row_id : R → ℕ) where
  unfoldable pub query : ℤ → ℤ → ℕ → List R → List R
  query before after through rows =
      let found = filter (λ r. selects before after through (row_id r)) rows in
      take (page_size + 1) (if is_ascending before after then found else reverse found)

-- `HasMore`, the cut to one page and the reversal of a descending page.
unfoldable pub finish : Bool → ℕ → List Message → Page
finish ascending through found =
    let more = ltb page_size (length found) in
    let cut = if more then take page_size found else found in
    record {
      messages = if ascending then cut else reverse cut;
      has_more = more;
      through_id = through;
    }

-- A page of a list of messages: the whole of `Page`, but for reading the rows.
unfoldable pub page_of : ℤ → ℤ → ℕ → List Message → Page
page_of before after through messages =
    finish (is_ascending before after) through (query (λ m. m.id) before after through messages)

-- `if len(page.Messages) > 0 { client.cursor = page.Messages[len(page.Messages)-1].ID }`
unfoldable pub last_id : ℕ → List Message → ℕ
last_id cursor [] = cursor
last_id cursor (m ∷ ms) = last_id m.id ms

-- Ids grow strictly along the list, from above a bound.
abbrev pub Ascending : ℕ → List Message → Type 0
Ascending bound [] = Unit {0}
Ascending bound (m ∷ ms) = (bound < m.id) × Ascending m.id ms

-- The message with an id.
abbrev pub message_at : ℕ → List Message → Option Message
message_at id [] = none
message_at id (m ∷ ms) = let rest = message_at id ms in if m.id == id then some m else rest
