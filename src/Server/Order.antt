-- ===== src/Server/Order.antt =====
-- `finishSync` of session.go: what the client sees first, and in which order.
use spacechat.Prelude.{
  ◌+◌, ◌≤◌, ◌≡◌, refl, sym, ap, ◌∙◌, false, List, [], ◌∷◌, ◌++◌, arith, length, length-append,
}
use spacechat.Protocol.Frames.{Frame, encode, sync_complete, complete}
use spacechat.Server.Session.{Session, enqueue, enqueue_all, finish_sync, outgoing_capacity}
use mathlib.Core.List.{append_assoc, append-nil}

-- What a queue with enough space holds after `enqueue`.
record Holds (before c : Session) (frames : List Frame) : Type 0 where
  outgoing : c.outgoing ≡ frames
  alive : c.cancelled ≡ false
  deferred : c.deferred ≡ before.deferred
  syncing : c.syncing ≡ before.syncing

enqueue-Holds :
    (frame : Frame) (c : Session)
    → c.cancelled ≡ false
    → length c.outgoing + 1 ≤ outgoing_capacity
    → Holds c (enqueue frame c) (c.outgoing ++ frame ∷ [])
unfolding enqueue
enqueue-Holds frame c alive space = record {
  outgoing = ground (arith, alive, space);
  alive = ground (arith, alive, space);
  deferred = ground (arith, alive, space);
  syncing = ground (arith, alive, space);
}

enqueue_all-Holds :
    (frames : List Frame) (c : Session)
    → c.cancelled ≡ false
    → length c.outgoing + length frames ≤ outgoing_capacity
    → Holds c (enqueue_all frames c) (c.outgoing ++ frames)
unfolding enqueue_all
enqueue_all-Holds [] c alive space = record {
  outgoing = sym (append-nil c.outgoing);
  alive = alive;
  deferred = refl;
  syncing = refl;
}
enqueue_all-Holds (f ∷ fs) c alive space =
    let one = enqueue-Holds f c alive (omega arith) in
    let rest =
      enqueue_all-Holds fs (enqueue f c) one.alive
        (omega (arith, ap length one.outgoing, length-append c.outgoing (f ∷ []))) in
    record {
      outgoing =
          rest.outgoing ∙ ap (λ x. x ++ fs) one.outgoing ∙ append_assoc c.outgoing (f ∷ []) fs;
      alive = rest.alive;
      deferred = rest.deferred ∙ one.deferred;
      syncing = rest.syncing ∙ one.syncing;
    }

-- When a synchronisation ends and the queue has the space, the client gets what was queued, then the
-- end of the synchronisation, then every frame that was held back, in the order in which they came;
-- nothing is held back any more, and the connection lives.
pub finish_sync-outgoing :
    (c : Session)
    → c.cancelled ≡ false
    → length c.outgoing + (1 + length c.deferred) ≤ outgoing_capacity
    → ((finish_sync c).outgoing
        ≡ c.outgoing ++ encode sync_complete [] (complete c.through) ∷ c.deferred)
      × ((finish_sync c).deferred ≡ [])
      × ((finish_sync c).syncing ≡ false)
      × ((finish_sync c).cancelled ≡ false)
unfolding finish_sync
finish_sync-outgoing c alive space =
    let end = encode sync_complete [] (complete c.through) in
    let told = enqueue-Holds end c alive (omega arith) in
    let live = record (enqueue end c) { syncing = false } in
    let sent = enqueue_all-Holds live.deferred live told.alive (
      omega (
        arith,
        ap length told.outgoing,
        ap length told.deferred,
        length-append c.outgoing (end ∷ []),
      )) in
    (
      sent.outgoing
          ∙ ap (λ x. x ++ live.deferred) told.outgoing
          ∙ append_assoc c.outgoing (end ∷ []) live.deferred
          ∙ ap (λ x. c.outgoing ++ end ∷ x) told.deferred,
      refl,
      sent.syncing,
      sent.alive,
    )
