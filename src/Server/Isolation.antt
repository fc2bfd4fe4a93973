-- ===== src/Server/Isolation.antt =====
-- A handler of one room's connection and the connections of the other rooms.
use spacechat.Prelude.{
  ℕ, ◌≡◌, refl, sym, ap, ◌∙◌, not, List, [], ◌∷◌, some, arith, Text, text_eq, text_eq_iff, ◌==◌,
  Bool-cases, inl, inr, filter, subst,
}
use mathlib.Core.Option.{some_inj}
use spacechat.Protocol.Frames.{Frame, Request}
use spacechat.SecureStore.Sealing.{Codec}
use spacechat.Server.Session.{Session}
use spacechat.Server.State.{Server, Env, modify, session_at}
use spacechat.Server.Handle.{handle, fail, publish, publish_recall, broadcast}
use spacechat.Server.Cases.{Ends, handle_cases}
use spacechat.Server.Follows.{
  Follows, Follows-trans, enqueue-Follows, cancel-Follows, deliver-Follows, push_sync-Follows,
}

-- The connections of the rooms other than `room`.
unfoldable pub outside : Text → List Session → List Session
outside room cs = filter (λ c. not (text_eq c.room room)) cs

-- The connection `id`, if there is one, is in the room.
abbrev IsMember : Text → ℕ → List Session → Type 0
IsMember room id cs = (c : Session) → session_at id cs ≡ some c → c.room ≡ room

outside-modify :
    (room : Text) (id : ℕ) (f : Session → Session) (cs : List Session)
    → ((c : Session) → Follows c (f c))
    → IsMember room id cs
    → outside room (modify id f cs) ≡ outside room cs
unfolding outside modify session_at
outside-modify room id f [] h m = refl
outside-modify room id f (c ∷ cs) h m = elim (Bool-cases (c.id == id)) [
  | inl hit ↦
      let home = m c (ground (arith, hit)) in
      let home' = (h c).room ∙ home in
      ground (arith, hit, (text_eq_iff c.room room).1 home, (text_eq_iff (f c).room room).1 home')
  | inr miss ↦
      ground (arith, miss, outside-modify room id f cs h (λ d e. m d (ground (arith, miss, e))))
]

outside-broadcast :
    (room : Text) (frame : Session → Frame) (cs : List Session)
    → outside room (broadcast room frame cs) ≡ outside room cs
unfolding outside broadcast
outside-broadcast room frame [] = refl
outside-broadcast room frame (c ∷ cs) =
    let follows = deliver-Follows (frame c) c in
    ground (arith, outside-broadcast room frame cs, follows.room)

IsMember-broadcast :
    (room : Text) (id : ℕ) (frame : Session → Frame) (cs : List Session)
    → IsMember room id cs
    → IsMember room id (broadcast room frame cs)
unfolding broadcast session_at
IsMember-broadcast room id frame [] m d e = m d e
IsMember-broadcast room id frame (c ∷ cs) m d e = elim (Bool-cases (c.id == id)) [
  | inl hit ↦
      let home = m c (ground (arith, hit)) in
      let follows = deliver-Follows (frame c) c in
      ground (arith, hit, home, e, follows.id, follows.room, (text_eq_iff c.room room).1 home)
  | inr miss ↦
      let follows = deliver-Follows (frame c) c in
      IsMember-broadcast room id frame cs (λ x y. m x (ground (arith, miss, y))) d
        (ground (arith, miss, e, follows.id))
]

module _ (codec : Codec) where
  open codec use {Cipher, Nonce}

  outside-Ends :
      (env : Env Nonce) (id : ℕ) (request : Request) (service : Server Cipher) (client : Session)
      → session_at id service.sessions ≡ some client
      → Ends codec
          (λ s. outside client.room s.sessions ≡ outside client.room service.sessions)
          env
          id
          client
          request
          service
  unfolding fail publish publish_recall
  outside-Ends env id request service client found =
      let cs = service.sessions in
      let here : IsMember client.room id cs =
        λ c e. ap (λ x. x.room) (some_inj.0 (sym e ∙ found)) in
      let still = λ (frame : Session → Frame). IsMember-broadcast client.room id frame cs here in
      record {
        same = refl;
        failed = λ code. outside-modify client.room id _ cs (enqueue-Follows _) here;
        unsaved = λ body e b h. outside-modify client.room id _ cs (enqueue-Follows _) here;
        saved = λ body m b h.
            outside-modify client.room id _ _ (λ c. enqueue-Follows _ c) (still _)
            ∙ outside-broadcast client.room _ cs;
        withdrawn = λ number s s' m b h. outside-broadcast client.room _ cs;
        shown = λ p. outside-modify client.room id _ cs (λ c. enqueue-Follows _ c) here;
        dropped =
            outside-modify client.room id _ cs
              (λ c. Follows-trans c _ _ (enqueue-Follows _ c) (cancel-Follows _)) here;
        synced = λ p.
            outside-modify client.room id _ cs (push_sync-Follows env request.request_id p) here;
      }

  -- A request of a connection leaves every connection of every other room as it was: who they are,
  -- their queues, and what they are still owed.
  pub handle-outside :
      (env : Env Nonce) (id : ℕ) (request : Request) (service : Server Cipher) (client : Session)
      → session_at id service.sessions ≡ some client
      → outside client.room (handle codec env id request service).sessions
        ≡ outside client.room service.sessions
  handle-outside env id request service client found =
      handle_cases codec
        (λ s. outside client.room s.sessions ≡ outside client.room service.sessions) env id request
        service _ found refl
        (λ c at.
          subst
            (λ (x : Session).
              Ends codec
                (λ s. outside client.room s.sessions ≡ outside client.room service.sessions) env id
                x request service)
            (some_inj.0 (sym found ∙ at)) (outside-Ends env id request service client found))
