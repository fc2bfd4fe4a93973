-- ===== src/Pages/Sync.antt =====
-- The rounds of a resumed connection: the server answers each with the page after the cursor, and
-- the cursor moves to the page's last message, while there is more.
use spacechat.Prelude.{
  ℕ, zero, suc, ◌≤◌, ◌<◌, ◌≡◌, refl, sym, ◌∙◌, ap, Bool, true, ◌&&◌, List, [], ◌∷◌, ◌++◌, arith,
  ltb, leb, if◌then◌else◌, filter, take, drop, length, length-drop, take-append-drop, Bool-cases,
  inl, inr,
}
use spacechat.Prelude.Int.{pos, negsuc}
use spacechat.Protocol.Frames.{Message, page_size}
use spacechat.Pages.Bounds.{finish_cut}
use spacechat.Pages.{is_ascending, selects, query, page_of, last_id, Ascending}

-- Messages behind `cursor`, up to `through`.
abbrev pub pending : ℕ → ℕ → List Message → List Message
pending cursor through = filter λ m. ltb cursor m.id && leb m.id through

pub Ascending-mono : (a b : ℕ) (ms : List Message) → a ≤ b → Ascending b ms → Ascending a ms
Ascending-mono a b [] h s = tt
Ascending-mono a b (m ∷ ms) h s = (omega arith, s.1)

pub Ascending-filter :
    (p : Message → Bool) (b : ℕ) (ms : List Message) → Ascending b ms → Ascending b (filter p ms)
Ascending-filter p b [] s = tt
Ascending-filter p b (m ∷ ms) s =
    ground (arith, Ascending-filter p m.id ms s.1, Ascending-mono b m.id (filter p ms))

filter_above :
    (b c : ℕ) (ms : List Message) → c ≤ b → Ascending b ms → filter (λ m. ltb c m.id) ms ≡ ms
filter_above b c [] h s = refl
filter_above b c (m ∷ ms) h s = ground (arith, filter_above m.id c ms)

le-last_id : (b n : ℕ) (ms : List Message) → Ascending b ms → b ≤ last_id b (take n ms)
unfolding last_id
le-last_id b zero ms s = omega arith
le-last_id b (suc n) [] s = omega arith
le-last_id b (suc n) (m ∷ ms) s = omega (arith, le-last_id m.id n ms s.1)

last_id_cons : (b : ℕ) (m : Message) (ms : List Message) → last_id b (m ∷ ms) ≡ last_id m.id ms
unfolding last_id
last_id_cons b m ms = refl

filter_behind_take :
    (b n : ℕ) (ms : List Message)
    → Ascending b ms
    → filter (λ m. ltb (last_id b (take n ms)) m.id) ms ≡ drop n ms
filter_behind_take b zero ms s = unfold last_id in filter_above b b ms (omega arith) s
filter_behind_take b (suc n) [] s = refl
filter_behind_take b (suc n) (m ∷ ms) s = ground (
  arith,
  last_id_cons b m (take n ms),
  le-last_id m.id n ms s.1,
  filter_behind_take m.id n ms s.1,
)

pending_again :
    (c d through : ℕ) (ms : List Message)
    → c ≤ d
    → filter (λ m. ltb d m.id) (pending c through ms) ≡ pending d through ms
pending_again c d through [] h = refl
pending_again c d through (m ∷ ms) h = ground (arith, pending_again c d through ms)

Ascending-pending :
    (c through b : ℕ) (ms : List Message) → Ascending b ms → Ascending c (pending c through ms)
Ascending-pending c through b [] s = tt
Ascending-pending c through b (m ∷ ms) s = ground (
  arith,
  Ascending-pending c through m.id ms s.1,
  Ascending-filter (λ x. ltb c x.id && leb x.id through) m.id ms s.1,
)

-- Taking a page off leaves the messages behind its last one.
pending-last_id :
    (n c through b : ℕ) (ms : List Message)
    → Ascending b ms
    → pending (last_id c (take n (pending c through ms))) through ms ≡ drop n (pending c through ms)
pending-last_id n c through b ms s =
    sym (
      pending_again c (last_id c (take n (pending c through ms))) through ms
        (le-last_id c n _ (Ascending-pending c through b ms s)))
    ∙ filter_behind_take c n (pending c through ms) (Ascending-pending c through b ms s)

selects-pending :
    (c through : ℕ) (ms : List Message)
    → filter (λ m. selects (negsuc 0) (pos c) through m.id) ms ≡ pending c through ms
unfolding selects is_ascending
selects-pending c through [] = refl
selects-pending c through (m ∷ ms) = ground (arith, selects-pending c through ms)

ascending_sync : (c : ℕ) → is_ascending (negsuc 0) (pos c) ≡ true
unfolding is_ascending
ascending_sync c = ground arith

-- The page that a sync request is answered with.
pub sync_page :
    (c through : ℕ) (ms : List Message)
    → page_of (negsuc 0) (pos c) through ms ≡ record {
      messages = take page_size (pending c through ms);
      has_more = ltb page_size (length (pending c through ms));
      through_id = through;
    }
unfolding page_of query
sync_page c through ms = rw (finish_cut, ascending_sync c, selects-pending c through ms)

-- The messages of the rounds together; a round follows while there is more.
unfoldable pub sync_rounds : ℕ → ℕ → ℕ → List Message → List Message
sync_rounds zero cursor through ms = []
sync_rounds (suc rounds) cursor through ms =
    let p = page_of (negsuc 0) (pos cursor) through ms in
    let rest = sync_rounds rounds (last_id cursor p.messages) through ms in
    if p.has_more then p.messages ++ rest else p.messages

round :
    (rounds cursor through : ℕ) (ms : List Message)
    → sync_rounds (suc rounds) cursor through ms ≡ (
        if ltb page_size (length (pending cursor through ms))
        then take page_size (pending cursor through ms)
          ++ sync_rounds rounds
              (last_id cursor (take page_size (pending cursor through ms)))
              through
              ms
        else take page_size (pending cursor through ms))
unfolding sync_rounds
round rounds cursor through ms = rw (sync_page cursor through ms)

take_all : (n : ℕ) (ms : List Message) → length ms ≤ n → take n ms ≡ ms
take_all zero [] h = refl
take_all zero (m ∷ ms) h = absurd (omega arith)
take_all (suc n) [] h = refl
take_all (suc n) (m ∷ ms) h = ap (◌∷◌ m) (take_all n ms (omega arith))

-- The rounds bring every message behind the cursor, up to the last id of the connection's start,
-- once and in order, if the ids ascend and there are more rounds than such messages.
pub sync_rounds-pending :
    (rounds cursor through : ℕ) (ms : List Message)
    → Ascending 0 ms
    → length (pending cursor through ms) < rounds
    → sync_rounds rounds cursor through ms ≡ pending cursor through ms
sync_rounds-pending zero cursor through ms s h = absurd (omega arith)
sync_rounds-pending (suc rounds) cursor through ms s h =
    elim (Bool-cases (ltb page_size (length (pending cursor through ms)))) [
      | inl more ↦
          rw
            (
              round rounds cursor through ms,
              more,
              sync_rounds-pending rounds
                  (last_id cursor (take page_size (pending cursor through ms))) through ms s
                  (rw (pending-last_id page_size cursor through 0 ms s)
                    (ground (arith, length-drop page_size (pending cursor through ms)))),
              pending-last_id page_size cursor through 0 ms s,
            )
            (take-append-drop page_size (pending cursor through ms))
      | inr last ↦ rw (round rounds cursor through ms, last) (take_all page_size _ (ground arith))
    ]
