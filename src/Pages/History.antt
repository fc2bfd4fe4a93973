-- ===== src/Pages/History.antt =====
-- The page that a history request is answered with: the newest messages before an id.
use mathlib.Core.List.{reverse-append, reverse-reverse}
use spacechat.Prelude.{
  ℕ, ◌<◌, ◌-◌, ◌≡◌, refl, sym, ◌∙◌, ap, false, ◌&&◌, List, [], ◌∷◌, ◌++◌, arith, ltb, leb, filter,
  take, drop, length, length-drop, length-take, length-reverse, take-append-drop, reverse,
}
use spacechat.Prelude.Int.{pos}
use spacechat.Protocol.Frames.{Message, page_size}
use spacechat.Pages.{is_ascending, selects, query, page_of}
use spacechat.Pages.Bounds.{finish_cut}

-- Messages before `before`, up to `through`.
abbrev pub older : ℕ → ℕ → List Message → List Message
older before through = filter λ m. ltb m.id before && leb m.id through

selects-older :
    (b through : ℕ) (ms : List Message)
    → 0 < b
    → filter (λ m. selects (pos b) (pos 0) through m.id) ms ≡ older b through ms
unfolding selects is_ascending
selects-older b through [] h = refl
selects-older b through (m ∷ ms) h = ground (arith, selects-older b through ms)

descending_history : (b : ℕ) → is_ascending (pos b) (pos 0) ≡ false
unfolding is_ascending
descending_history b = ground arith

history_page :
    (b through : ℕ) (ms : List Message)
    → 0 < b
    → page_of (pos b) (pos 0) through ms ≡ record {
      messages = reverse (take page_size (reverse (older b through ms)));
      has_more = ltb page_size (length (older b through ms));
      through_id = through;
    }
unfolding page_of query
history_page b through ms h = rw (
  finish_cut,
  descending_history b,
  selects-older b through ms h,
  length-reverse (older b through ms),
)

ltb-sub : (n k : ℕ) → ltb n k ≡ ltb 0 (k - n)
ltb-sub n k = ground arith

more-left :
    (n : ℕ) (ms : List Message) → ltb n (length ms) ≡ ltb 0 (length (reverse (drop n (reverse ms))))
more-left n ms =
    rw (length-reverse (drop n (reverse ms)), length-drop n (reverse ms), length-reverse ms)
      (ltb-sub n (length ms))

-- The messages before an id that is not 0 are those of the page, in order, behind those that the page leaves for
-- later; there are such, exactly when the page says that there is more.
pub page_of-older :
    (b through : ℕ) (ms : List Message)
    → 0 < b
    → let p = page_of (pos b) (pos 0) through ms in
      (rest : List Message) × (older b through ms ≡ rest ++ p.messages)
      × (p.has_more ≡ ltb 0 (length rest))
page_of-older b through ms h = (
  reverse (drop page_size (reverse (older b through ms))),
  rw (history_page b through ms h) (
      sym (reverse-reverse (older b through ms))
      ∙ ap reverse (sym (take-append-drop page_size (reverse (older b through ms))))
      ∙ reverse-append (take page_size (reverse (older b through ms)))
          (drop page_size (reverse (older b through ms)))),
  rw (history_page b through ms h) (more-left page_size (older b through ms)),
)

-- A page is not empty, when there are messages before the id.
pub page_of-older_some :
    (b through : ℕ) (ms : List Message)
    → 0 < b
    → 0 < length (older b through ms)
    → 0 < length (page_of (pos b) (pos 0) through ms).messages
page_of-older_some b through ms h some_left =
    let found = older b through ms in
    rw
      (
        history_page b through ms h,
        length-reverse (take page_size (reverse found)),
        length-take page_size (reverse found),
        length-reverse found,
      )
      (ground arith)
