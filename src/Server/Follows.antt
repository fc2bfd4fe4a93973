-- ===== src/Server/Follows.antt =====
-- What every operation on a connection keeps: who it is, and the bounds of its queues.
use spacechat.Prelude.{
  ℕ, ◌≤◌, ◌≡◌, refl, ◌∙◌, false, List, [], ◌∷◌, map, arith, Text, text_eq, length, length-append,
  ltb, leb, ◌==◌, if_intro, Bool-cases, inl, inr,
}
use spacechat.Protocol.Frames.{Frame, Page, encode, sync, sync_complete, complete, page}
use spacechat.Pages.{last_id}
use spacechat.Server.Session.{
  Session, cancel, enqueue, deliver, enqueue_all, finish_sync, outgoing_capacity, deferred_capacity,
}
use spacechat.Server.State.{modify, announce}
use spacechat.Server.Handle.{push_sync, broadcast}
use spacechat.Server.Backend.{Backend}
use spacechat.Server.Clear.{clear_session}
use spacechat.Server.State.{Env, visible_page}

pub record IsBounded (c : Session) : Type 0 where
  pub queued : length c.outgoing ≤ outgoing_capacity
  pub held : length c.deferred ≤ deferred_capacity

pub record Follows (c d : Session) : Type 0 where
  pub id : d.id ≡ c.id
  pub name : d.name ≡ c.name
  pub room : d.room ≡ c.room
  pub owner : d.owner ≡ c.owner
  pub bounded : IsBounded c → IsBounded d

pub Follows-refl : (c : Session) → Follows c c
Follows-refl c = record { id = refl; name = refl; room = refl; owner = refl; bounded = λ b. b }

pub Follows-trans : (c d e : Session) → Follows c d → Follows d e → Follows c e
Follows-trans c d e f g = record {
  id = g.id ∙ f.id;
  name = g.name ∙ f.name;
  room = g.room ∙ f.room;
  owner = g.owner ∙ f.owner;
  bounded = λ b. g.bounded (f.bounded b);
}

pub cancel-Follows : (c : Session) → Follows c (cancel c)
unfolding cancel
cancel-Follows c = record {
  id = refl;
  name = refl;
  room = refl;
  owner = refl;
  bounded = λ b. record { queued = b.queued; held = b.held };
}

pub enqueue-Follows : (frame : Frame) (c : Session) → Follows c (enqueue frame c)
unfolding enqueue
enqueue-Follows frame c =
    if_intro (Follows c) c.cancelled (λ _. Follows-refl c)
      λ _.
        if_intro (Follows c) (ltb (length c.outgoing) outgoing_capacity)
          (λ space. record {
            id = refl;
            name = refl;
            room = refl;
            owner = refl;
            bounded = λ b. record {
              queued = ground (arith, length-append c.outgoing (frame ∷ []));
              held = b.held;
            };
          })
          (λ _. cancel-Follows c)

pub deliver-Follows : (frame : Frame) (c : Session) → Follows c (deliver frame c)
unfolding deliver
deliver-Follows frame c =
    if_intro (Follows c) c.syncing
      (λ _.
        if_intro (Follows c) (leb deferred_capacity (length c.deferred)) (λ _. cancel-Follows c)
          (λ space. record {
            id = refl;
            name = refl;
            room = refl;
            owner = refl;
            bounded = λ b. record {
              queued = b.queued;
              held = ground (arith, length-append c.deferred (frame ∷ []));
            };
          }))
      (λ _. enqueue-Follows frame c)

live-Follows : (c : Session) → Follows c (record c { syncing = false })
live-Follows c = record {
  id = refl;
  name = refl;
  room = refl;
  owner = refl;
  bounded = λ b. record { queued = b.queued; held = b.held };
}

emptied-Follows : (c : Session) → Follows c (record c { deferred = [] })
emptied-Follows c = record {
  id = refl;
  name = refl;
  room = refl;
  owner = refl;
  bounded = λ b. record { queued = b.queued; held = omega arith };
}

pub moved-Follows : (n : ℕ) (c : Session) → Follows c (record c { cursor = n })
moved-Follows n c = record {
  id = refl;
  name = refl;
  room = refl;
  owner = refl;
  bounded = λ b. record { queued = b.queued; held = b.held };
}

pub clear_session-Follows :
    {Cipher : Type 0} (now deleted : ℕ) (backend : Backend Cipher) (c : Session)
    → Follows c (clear_session now deleted backend c)
unfolding clear_session
clear_session-Follows now deleted backend c =
    let fresh = record c { syncing = false; deferred = []; cursor = 0; through = 0 } in
    Follows-trans c fresh _
      (record {
        id = refl;
        name = refl;
        room = refl;
        owner = refl;
        bounded = λ b. record { queued = b.queued; held = omega arith };
      })
      (enqueue-Follows _ fresh)

enqueue_all-Follows : (frames : List Frame) (c : Session) → Follows c (enqueue_all frames c)
unfolding enqueue_all
enqueue_all-Follows [] c = Follows-refl c
enqueue_all-Follows (f ∷ fs) c =
    Follows-trans c _ _ (enqueue-Follows f c) (enqueue_all-Follows fs (enqueue f c))

pub finish_sync-Follows : (c : Session) → Follows c (finish_sync c)
unfolding finish_sync
finish_sync-Follows c =
    let told = enqueue (encode sync_complete [] (complete c.through)) c in
    let live = record told { syncing = false } in
    let sent = enqueue_all live.deferred live in
    Follows-trans c told _ (enqueue-Follows _ c) (
      Follows-trans told live _ (live-Follows told)
        (Follows-trans live sent _ (enqueue_all-Follows live.deferred live) (emptied-Follows sent)))

pub push_sync-Follows :
    {Nonce : Type 0} (env : Env Nonce) (request_id : Text) (p : Page) (c : Session)
    → Follows c (push_sync env request_id p c)
unfolding push_sync
push_sync-Follows env request_id p c =
    let told = enqueue (encode sync request_id (page (visible_page env.now c p))) c in
    let moved = record told { cursor = last_id told.cursor p.messages } in
    Follows-trans c moved _
      (Follows-trans c told moved (enqueue-Follows _ c) (moved-Follows _ told))
      (if_intro (Follows moved) p.has_more (λ _. Follows-refl moved)
        (λ _. finish_sync-Follows moved))

-- Two lists of connections, one by one.
abbrev pub Updated : List Session → List Session → Type 0
Updated [] [] = Unit {0}
Updated (c ∷ cs) (d ∷ ds) = Follows c d × Updated cs ds
Updated _ _ = ⊥

pub Updated-refl : (cs : List Session) → Updated cs cs
Updated-refl [] = tt
Updated-refl (c ∷ cs) = (Follows-refl c, Updated-refl cs)

pub Updated-trans : (cs ds es : List Session) → Updated cs ds → Updated ds es → Updated cs es
Updated-trans [] [] [] f g = tt
Updated-trans (c ∷ cs) (d ∷ ds) (e ∷ es) f g =
    (Follows-trans c d e f.0 g.0, Updated-trans cs ds es f.1 g.1)
Updated-trans [] (d ∷ ds) es f g = absurd f
Updated-trans (c ∷ cs) [] es f g = absurd f
Updated-trans [] [] (e ∷ es) f g = absurd g
Updated-trans (c ∷ cs) (d ∷ ds) [] f g = absurd g

pub modify-Updated :
    (id : ℕ) (f : Session → Session) (cs : List Session)
    → ((c : Session) → Follows c (f c))
    → Updated cs (modify id f cs)
unfolding modify
modify-Updated id f [] h = tt
modify-Updated id f (c ∷ cs) h = elim (Bool-cases (c.id == id)) [
  | inl hit ↦ rw hit (h c, Updated-refl cs)
  | inr miss ↦ rw miss (Follows-refl c, modify-Updated id f cs h)
]

pub map-Updated :
    (f : Session → Session) (cs : List Session)
    → ((c : Session) → Follows c (f c))
    → Updated cs (map f cs)
map-Updated f [] h = tt
map-Updated f (c ∷ cs) h = (h c, map-Updated f cs h)

pub broadcast-Updated :
    (room : Text) (frame : Session → Frame) (cs : List Session)
    → Updated cs (broadcast room frame cs)
unfolding broadcast
broadcast-Updated room frame cs = map-Updated _ cs λ c.
    if_intro (Follows c) (text_eq c.room room) (λ _. deliver-Follows (frame c) c)
      (λ _. Follows-refl c)

pub announce-Updated : (cs : List Session) → Updated cs (announce cs)
unfolding announce
announce-Updated cs = map-Updated _ cs (λ c. deliver-Follows _ c)
