-- ===== src/Tui/Timeline.antt =====
-- `merge` of model.go: the messages on the screen.
pub mod Laws
pub mod Older
use spacechat.Prelude.{
  ℕ, Bool, true, false, ◌&&◌, not, List, [], ◌∷◌, leb, ◌==◌, if◌then◌else◌, any,
}
use spacechat.Protocol.Frames.{Message}

abbrev pub has_id : ℕ → List Message → Bool
has_id id ms = any (λ m. m.id == id) ms

-- One round of the loop over the incoming messages: `known` holds the last place of an id.
unfoldable pub place : Message → List Message → List Message
place new [] = new ∷ []
place new (m ∷ ms) =
    let rest = place new ms in
    if m.id == new.id && not (has_id new.id ms)
    then (if m.recalled then m else new) ∷ ms
    else m ∷ rest

unfoldable pub place_all : List Message → List Message → List Message
place_all [] ms = ms
place_all (new ∷ incoming) ms = place_all incoming (place new ms)

unfoldable pub insert_by_id : Message → List Message → List Message
insert_by_id new [] = new ∷ []
insert_by_id new (m ∷ ms) =
    let rest = insert_by_id new ms in if leb new.id m.id then new ∷ m ∷ ms else m ∷ rest

-- `sort.Slice` by the id.
unfoldable pub sort_by_id : List Message → List Message
sort_by_id [] = []
sort_by_id (m ∷ ms) = insert_by_id m (sort_by_id ms)

unfoldable pub merge : List Message → List Message → List Message
merge incoming messages = sort_by_id (place_all incoming messages)
