-- ===== src/Tui/Chat/Shown.antt =====
-- The part of a room that a screen may show, in the order of its ids.
use spacechat.Prelude.{ℕ, ◌≡◌, ◌<◌, refl, List, [], ◌∷◌, ◌++◌, arith, leb, ltb, filter, All}
use spacechat.Protocol.Frames.{Message}
use spacechat.Pages.{Ascending}
use spacechat.Pages.Sync.{Ascending-mono}
use spacechat.Pages.History.{older}
use spacechat.Tui.Timeline.Laws.{Increasing}

-- The messages of a room up to an id.
abbrev pub visible : ℕ → List Message → List Message
visible through = filter λ m. leb m.id through

pub Ascending-above : (b : ℕ) (ms : List Message) → Ascending b ms → All (λ m. b < m.id) ms
Ascending-above b [] s = tt
Ascending-above b (m ∷ ms) s =
    (s.0, Ascending-above b ms (Ascending-mono b m.id ms (omega (arith, s.0)) s.1))

pub Ascending-Increasing : (b : ℕ) (ms : List Message) → Ascending b ms → Increasing ms
Ascending-Increasing b [] s = tt
Ascending-Increasing b (m ∷ ms) s = (Ascending-above m.id ms s.1, Ascending-Increasing m.id ms s.1)

pub before_visible :
    (b through : ℕ) (ms : List Message)
    → filter (λ m. ltb m.id b) (visible through ms) ≡ older b through ms
before_visible b through [] = refl
before_visible b through (m ∷ ms) = ground (arith, before_visible b through ms)

pub filter_above_none :
    (b : ℕ) (ms : List Message) → All (λ m. b < m.id) ms → filter (λ m. ltb m.id b) ms ≡ []
filter_above_none b [] a = refl
filter_above_none b (m ∷ ms) a = ground (arith, filter_above_none b ms a.1, a.0)

pub split_first :
    (m : Message) (xs ms : List Message)
    → Increasing (xs ++ m ∷ ms)
    → filter (λ x. ltb x.id m.id) (xs ++ m ∷ ms) ≡ xs
split_first m [] ms i = ground (arith, filter_above_none m.id ms i.0)
split_first m (x ∷ xs) ms i = ground (arith, split_first m xs ms i.1, All-middle xs i.0)
  where
    All-middle : (ys : List Message) → All (λ z. x.id < z.id) (ys ++ m ∷ ms) → x.id < m.id
    All-middle [] a = a.0
    All-middle (y ∷ ys) a = All-middle ys a.1
