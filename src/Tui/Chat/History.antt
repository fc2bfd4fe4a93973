-- ===== src/Tui/Chat/History.antt =====
-- Scrolling back through the history: pages of the server's list go before those on the screen.
use spacechat.Prelude.{
  append_assoc, length-append, ℕ, zero, suc, ◌≡◌, ◌<◌, ◌≤◌, refl, sym, ap, ◌∙◌, true, false, List,
  [], ◌∷◌, ◌++◌, some, arith, leb, ltb, filter, length, if◌then◌else◌, if_intro, All, subst,
}
use spacechat.Prelude.Int.{pos}
use spacechat.Protocol.Frames.{Message}
use spacechat.Pages.{page_of, Ascending}
use spacechat.Pages.Sync.{Ascending-filter}
use spacechat.Pages.History.{older, page_of-older, page_of-older_some}
use spacechat.Tui.Timeline.Laws.{Increasing}
use spacechat.Tui.Timeline.Older.{merge-append, Increasing-append_right}
use spacechat.Tui.Chat.{Chat, apply_page}
use spacechat.Tui.Chat.Shown.{
  visible, Ascending-above, Ascending-Increasing, before_visible, split_first,
}

-- The messages of the room that are not on the screen, with what there is about them.
abbrev pub Behind : ℕ → List Message → Chat → List Message → Type 0
Behind through room chat rest =
    (visible through room ≡ rest ++ chat.messages) × (chat.has_more ≡ ltb 0 (length rest))

visible-Increasing :
    (through : ℕ) (room : List Message) → Ascending 0 room → Increasing (visible through room)
visible-Increasing through room s =
    Ascending-Increasing 0 (visible through room)
      (Ascending-filter (λ m. leb m.id through) 0 room s)

older_first :
    (through : ℕ) (room rest : List Message) (m : Message) (ms : List Message)
    → Ascending 0 room
    → visible through room ≡ rest ++ m ∷ ms
    → older m.id through room ≡ rest
older_first through room rest m ms s e =
    sym (before_visible m.id through room)
    ∙ ap (filter λ x. ltb x.id m.id) e
    ∙ split_first m rest ms (subst Increasing e (visible-Increasing through room s))

-- After a page of older messages, what is behind is less and the rest of it stands before those on the screen.
pub apply_page-Behind :
    (through : ℕ) (room rest : List Message) (m : Message) (ms : List Message) (chat : Chat)
    → Ascending 0 room
    → 0 < m.id
    → chat.messages ≡ m ∷ ms
    → Behind through room chat rest
    → 0 < length rest
    → let after = apply_page true (some (page_of (pos m.id) (pos 0) through room)) chat in
      (left : List Message) × Behind through room after left × (length left < length rest)
unfolding apply_page
apply_page-Behind through room rest m ms chat s low shown behind more =
    let p = page_of (pos m.id) (pos 0) through room in
    let found = older_first through room rest m ms s (behind.0 ∙ ap (λ xs. rest ++ xs) shown) in
    let cut = page_of-older m.id through room low in
    let left = cut.0 in
    let joined : rest ≡ left ++ p.messages = sym found ∙ cut.1 in
    let whole : visible through room ≡ left ++ (p.messages ++ chat.messages) =
      behind.0
      ∙ ap (λ xs. xs ++ chat.messages) joined
      ∙ append_assoc left p.messages chat.messages in
    let ordered =
      Increasing-append_right left (p.messages ++ chat.messages)
        (subst Increasing whole (visible-Increasing through room s)) in
    (
      left,
      (whole ∙ ap (λ xs. left ++ xs) (sym (merge-append p.messages chat.messages ordered)), cut.2),
      omega (
        arith,
        ap length joined,
        length-append left p.messages,
        page_of-older_some m.id through room low (subst (λ xs. 0 < length xs) (sym found) more),
      ),
    )

-- One round: the page before the first message, if there is more.
unfoldable pub older_shown : ℕ → List Message → Chat → List Message → Chat
older_shown through room chat [] = chat
older_shown through room chat (m ∷ ms) =
    if chat.has_more
    then apply_page true (some (page_of (pos m.id) (pos 0) through room)) chat
    else chat

-- Scrolling up for a number of rounds.
unfoldable pub scroll : ℕ → ℕ → List Message → Chat → Chat
scroll zero through room chat = chat
scroll (suc rounds) through room chat =
    scroll rounds through room (older_shown through room chat chat.messages)

-- What is known of a chat between two rounds.
record Scrolling (rounds through : ℕ) (room : List Message) (chat : Chat) : Type 0 where
  rest : List Message
  behind : Behind through room chat rest
  enough : length rest ≤ rounds
  some_shown : 0 < length chat.messages

first_positive :
    (through : ℕ) (room rest : List Message) (m : Message) (ms : List Message)
    → Ascending 0 room
    → visible through room ≡ rest ++ m ∷ ms
    → 0 < m.id
first_positive through room rest m ms s e = middle rest (
    subst (All λ x. 0 < x.id) e (
      Ascending-above 0 (visible through room) (Ascending-filter (λ x. leb x.id through) 0 room s)))
  where
    middle : (xs : List Message) → All (λ x. 0 < x.id) (xs ++ m ∷ ms) → 0 < m.id
    middle [] a = a.0
    middle (x ∷ xs) a = middle xs a.1

module _ (rounds through : ℕ) (room : List Message) (s : Ascending 0 room) where
  page-Scrolling :
      (chat : Chat) (m : Message) (ms : List Message)
      → chat.messages ≡ m ∷ ms
      → Scrolling (suc rounds) through room chat
      → chat.has_more ≡ true
      → Scrolling rounds through room
          (apply_page true (some (page_of (pos m.id) (pos 0) through room)) chat)
  page-Scrolling chat m ms e k more =
      let low =
        first_positive through room k.rest m ms s (k.behind.0 ∙ ap (λ xs. k.rest ++ xs) e) in
      let next =
        apply_page-Behind through room k.rest m ms chat s low e k.behind
          (ground (arith, k.behind.1, more)) in
      let after = apply_page true (some (page_of (pos m.id) (pos 0) through room)) chat in
      record {
        rest = next.0;
        behind = next.1;
        enough = omega (arith, next.2, k.enough);
        some_shown = omega (
          arith,
          next.2,
          ap length next.1.0,
          ap length k.behind.0,
          length-append next.0 after.messages,
          length-append k.rest chat.messages,
        );
      }

  older_shown-Scrolling :
      (chat : Chat) (shown : List Message)
      → chat.messages ≡ shown
      → Scrolling (suc rounds) through room chat
      → Scrolling rounds through room (older_shown through room chat shown)
  unfolding older_shown
  older_shown-Scrolling chat [] e k = absurd (ground (arith, k.some_shown, ap length e))
  older_shown-Scrolling chat (m ∷ ms) e k =
      if_intro (Scrolling rounds through room) chat.has_more
        {x = apply_page true (some (page_of (pos m.id) (pos 0) through room)) chat} {y = chat}
        (λ more. page-Scrolling chat m ms e k more)
        (λ last. record {
          rest = k.rest;
          behind = k.behind;
          enough = ground (arith, k.behind.1, last);
          some_shown = k.some_shown;
        })

scroll-Scrolling :
    (rounds through : ℕ) (room : List Message) (chat : Chat)
    → Ascending 0 room
    → Scrolling rounds through room chat
    → Scrolling zero through room (scroll rounds through room chat)
unfolding scroll
scroll-Scrolling zero through room chat s k = k
scroll-Scrolling (suc rounds) through room chat s k =
    scroll-Scrolling rounds through room (older_shown through room chat chat.messages) s
      (older_shown-Scrolling rounds through room s chat chat.messages refl k)

nothing_left : (xs : List Message) → length xs ≤ 0 → xs ≡ []
nothing_left [] h = refl
nothing_left (x ∷ xs) h = absurd (omega (arith, h))

-- If the screen shows the newest messages of a room, at least one, and says truly whether there are older ones,
-- then scrolling up, a page a round, shows in the end the whole room up to the page's last id, in order and once,
-- and says that there is no more. As many rounds as there are messages missing are enough.
pub scroll-visible :
    (rounds through : ℕ) (room rest : List Message) (chat : Chat)
    → Ascending 0 room
    → Behind through room chat rest
    → 0 < length chat.messages
    → length rest ≤ rounds
    → ((scroll rounds through room chat).messages ≡ visible through room)
      × ((scroll rounds through room chat).has_more ≡ false)
scroll-visible rounds through room rest chat s behind shown enough =
    let done =
      scroll-Scrolling rounds through room chat s
        (record { rest = rest; behind = behind; enough = enough; some_shown = shown }) in
    let gone = nothing_left done.rest done.enough in
    (
      sym (done.behind.0 ∙ ap (λ xs. xs ++ (scroll rounds through room chat).messages) gone),
      done.behind.1 ∙ ap (λ xs. ltb 0 (length xs)) gone,
    )
