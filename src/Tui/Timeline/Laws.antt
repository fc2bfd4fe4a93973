-- ===== src/Tui/Timeline/Laws.antt =====
-- What `merge` keeps and what it shows afterwards.
use spacechat.Prelude.{
  ℕ, ◌≡◌, ◌<◌, ◌≤◌, refl, ap, ◌∙◌, false, ◌||◌, List, [], ◌∷◌, Option, none, some, arith, leb, ◌==◌,
  if◌then◌else◌, All, Bool-cases, inl, inr,
}
use spacechat.Protocol.Frames.{Message}
use spacechat.Pages.{message_at}
use spacechat.Tui.Timeline.{has_id, place, place_all, insert_by_id, sort_by_id, merge}

-- No id twice.
abbrev pub Unique : List Message → Type 0
Unique [] = Unit {0}
Unique (m ∷ ms) = (has_id m.id ms ≡ false) × Unique ms

-- The ids grow strictly.
abbrev pub Increasing : List Message → Type 0
Increasing [] = Unit {0}
Increasing (m ∷ ms) = All (λ x. m.id < x.id) ms × Increasing ms

-- What an incoming message makes of the one that is there.
unfoldable pub replaced : Option Message → Message → Message
replaced none new = new
replaced (some old) new = if old.recalled then old else new

-- The same for a list, for one id.
unfoldable pub latest : ℕ → Option Message → List Message → Option Message
latest id old [] = old
latest id old (m ∷ ms) = latest id (if m.id == id then some (replaced old m) else old) ms

has_id-place :
    (id : ℕ) (new : Message) (ms : List Message)
    → has_id id (place new ms) ≡ has_id id ms || new.id == id
unfolding place
has_id-place id new [] = ground arith
has_id-place id new (m ∷ ms) = ground (arith, has_id-place id new ms)

place-Unique : (new : Message) (ms : List Message) → Unique ms → Unique (place new ms)
unfolding place
place-Unique new [] u = (refl, tt)
place-Unique new (m ∷ ms) u = ground (arith, has_id-place m.id new ms, place-Unique new ms u.1)

pub message_at-none : (id : ℕ) (ms : List Message) → has_id id ms ≡ false → message_at id ms ≡ none
message_at-none id [] h = refl
message_at-none id (m ∷ ms) h = ground (arith, message_at-none id ms)

message_at-place :
    (id : ℕ) (new : Message) (ms : List Message)
    → Unique ms
    → message_at id (place new ms)
      ≡ (if new.id == id then some (replaced (message_at id ms) new) else message_at id ms)
unfolding place replaced
message_at-place id new [] u = ground arith
message_at-place id new (m ∷ ms) u =
    ground (arith, message_at-place id new ms u.1, message_at-none new.id ms)

place_all-Unique : (incoming ms : List Message) → Unique ms → Unique (place_all incoming ms)
unfolding place_all
place_all-Unique [] ms u = u
place_all-Unique (m ∷ incoming) ms u = place_all-Unique incoming (place m ms) (place-Unique m ms u)

message_at-place_all :
    (id : ℕ) (incoming ms : List Message)
    → Unique ms
    → message_at id (place_all incoming ms) ≡ latest id (message_at id ms) incoming
unfolding place_all latest
message_at-place_all id [] ms u = refl
message_at-place_all id (m ∷ incoming) ms u =
    message_at-place_all id incoming (place m ms) (place-Unique m ms u)
    ∙ ap (λ o. latest id o incoming) (message_at-place id m ms u)

has_id-insert_by_id :
    (id : ℕ) (new : Message) (ms : List Message)
    → has_id id (insert_by_id new ms) ≡ (new.id == id) || has_id id ms
unfolding insert_by_id
has_id-insert_by_id id new [] = refl
has_id-insert_by_id id new (m ∷ ms) = ground (arith, has_id-insert_by_id id new ms)

has_id-sort_by_id : (id : ℕ) (ms : List Message) → has_id id (sort_by_id ms) ≡ has_id id ms
unfolding sort_by_id
has_id-sort_by_id id [] = refl
has_id-sort_by_id id (m ∷ ms) =
    has_id-insert_by_id id m (sort_by_id ms) ∙ ap (λ b. m.id == id || b) (has_id-sort_by_id id ms)

message_at-insert_by_id :
    (id : ℕ) (new : Message) (ms : List Message)
    → has_id new.id ms ≡ false
    → message_at id (insert_by_id new ms) ≡ (if new.id == id then some new else message_at id ms)
unfolding insert_by_id
message_at-insert_by_id id new [] h = refl
message_at-insert_by_id id new (m ∷ ms) h = ground (arith, message_at-insert_by_id id new ms)

message_at-sort_by_id :
    (id : ℕ) (ms : List Message) → Unique ms → message_at id (sort_by_id ms) ≡ message_at id ms
unfolding sort_by_id
message_at-sort_by_id id [] u = refl
message_at-sort_by_id id (m ∷ ms) u = ground (
  arith,
  message_at-insert_by_id id m (sort_by_id ms),
  has_id-sort_by_id m.id ms,
  message_at-sort_by_id id ms u.1,
)

above-insert_by_id :
    (b : ℕ) (new : Message) (ms : List Message)
    → b < new.id
    → All (λ x. b < x.id) ms
    → All (λ x. b < x.id) (insert_by_id new ms)
unfolding insert_by_id
above-insert_by_id b new [] h a = (h, tt)
above-insert_by_id b new (m ∷ ms) h a = ground (arith, above-insert_by_id b new ms h a.1)

pub above_mono :
    (a b : ℕ) (ms : List Message) → a ≤ b → All (λ x. b < x.id) ms → All (λ x. a < x.id) ms
above_mono a b [] h all = tt
above_mono a b (m ∷ ms) h all = (omega (arith, all.0), above_mono a b ms h all.1)

insert_by_id-Increasing :
    (new : Message) (ms : List Message)
    → has_id new.id ms ≡ false
    → Increasing ms
    → Increasing (insert_by_id new ms)
unfolding insert_by_id
insert_by_id-Increasing new [] h i = (tt, tt)
insert_by_id-Increasing new (m ∷ ms) h i = elim (Bool-cases (leb new.id m.id)) [
  | inl front ↦ rw front ((ground arith, above_mono new.id m.id ms (ground arith) i.0), i)
  | inr behind ↦ rw behind (
    above-insert_by_id m.id new ms (ground arith) i.0,
    insert_by_id-Increasing new ms (ground arith) i.1,
  )
]

sort_by_id-Increasing : (ms : List Message) → Unique ms → Increasing (sort_by_id ms)
unfolding sort_by_id
sort_by_id-Increasing [] u = tt
sort_by_id-Increasing (m ∷ ms) u =
    insert_by_id-Increasing m (sort_by_id ms) (has_id-sort_by_id m.id ms ∙ u.0)
      (sort_by_id-Increasing ms u.1)

pub above-has_id : (b : ℕ) (ms : List Message) → All (λ x. b < x.id) ms → has_id b ms ≡ false
above-has_id b [] a = refl
above-has_id b (m ∷ ms) a = ground (arith, above-has_id b ms a.1, a.0)

pub Increasing-Unique : (ms : List Message) → Increasing ms → Unique ms
Increasing-Unique [] i = tt
Increasing-Unique (m ∷ ms) i = (above-has_id m.id ms i.0, Increasing-Unique ms i.1)

-- If the ids on the screen grow strictly, they do so after a merge, and an id then shows the last of the
-- messages that came for it, or what was there if none came; but a message that was recalled on the screen
-- stays as it was.
pub merge-latest :
    (incoming ms : List Message)
    → Increasing ms
    → Increasing (merge incoming ms)
      × ((id : ℕ) → message_at id (merge incoming ms) ≡ latest id (message_at id ms) incoming)
unfolding merge
merge-latest incoming ms i =
    let u = Increasing-Unique ms i in
    let v = place_all-Unique incoming ms u in
    (
      sort_by_id-Increasing _ v,
      λ id. message_at-sort_by_id id _ v ∙ message_at-place_all id incoming ms u,
    )
