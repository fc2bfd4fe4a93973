-- ===== src/Server/JoinSound.antt =====
-- A join keeps the invariant of the connections, and a refused one leaves them as they were.
use spacechat.Prelude.{
  ℕ, ◌≡◌, refl, sym, ◌∙◌, Bool, false, List, [], ◌∷◌, ◌++◌, map, Option, arith, Text, codes,
  text_eq, if◌then◌else◌, if_intro, ◌||◌, ◌&&◌, any, subst, Result, ok, Result-cases, inl, inr,
  refuse, Lands, >>=-eq-ok, refuse-eq-ok,
}
use spacechat.Prelude.TextList.{contains}
use spacechat.Prelude.Int.{ltb_ℤ, pos_part, pos, negsuc}
use spacechat.Protocol.Frames.{Page, Failure, encode, name_taken, invalid_cursor}
use spacechat.Protocol.Frames
use spacechat.Pages.{last_id}
use spacechat.SecureStore.Sealing.{Codec}
use spacechat.Server.Backend.{Backend}
use spacechat.Server.Backend
use spacechat.Server.Session.{Session, enqueue, session_key}
use spacechat.Server.State.{Server, Env, users, visible_page}
use spacechat.Server.Join.{
  greet, register, check_join, enter, admit, join, failure, open_repository, or_failure,
}
use spacechat.Server.Follows.{
  IsBounded, Follows, Follows-trans, moved-Follows, enqueue-Follows, finish_sync-Follows,
  announce-Updated,
}
use spacechat.Server.Sound.{IsSound, Updated-IsSound, snoc-IsSound}

module _ {Nonce : Type 0} where
  greet-Follows :
      (env : Env Nonce) (instance : Text) (resumed : Bool) (after : ℕ) (p : Page)
      (members : List Text) (c : Session)
      → Follows c (greet env instance resumed after p members c)
  unfolding greet
  greet-Follows env instance resumed after p members c =
      if_intro (Follows c) resumed
        (λ _.
          if_intro (Follows c) p.has_more (λ _. synced)
            (λ _. Follows-trans c _ _ synced (finish_sync-Follows _)))
        (λ _.
          Follows-trans c _ _ (Follows-trans c _ _ (enqueue-Follows _ c) (enqueue-Follows _ _))
            (finish_sync-Follows _))
    where
      synced :
          Follows c
            (record (enqueue
              (encode Frames.Kind.sync (codes "initial") (Frames.page (visible_page env.now c p)))
              (enqueue
                (encode Frames.Kind.welcome [] (
                  Frames.welcome (record {
                    instance_id = instance;
                    through_id = c.through;
                    resumed = resumed;
                    users = members;
                  })))
                c)) { cursor = last_id after p.messages })
      synced =
          Follows-trans c _ _ (Follows-trans c _ _ (enqueue-Follows _ c) (enqueue-Follows _ _))
            (moved-Follows _ _)

any-contains :
    (cs : List Session) (key : Text)
    → any (λ c. text_eq (session_key c) key) cs ≡ contains (map session_key cs) key
any-contains [] key = refl
any-contains (c ∷ cs) key = ground (arith, any-contains cs key)

session_key-Follows : (c d : Session) → Follows c d → session_key d ≡ session_key c
unfolding session_key
session_key-Follows c d f = ground (arith, f)

module _ {Cipher Nonce : Type 0} where
  register-IsSound :
      (env : Env Nonce) (instance : Text) (resumed : Bool) (after : ℕ) (p : Page) (c : Session)
      (service : Server Cipher)
      → IsSound service.sessions
      → any (λ d. text_eq (session_key d) (session_key c)) service.sessions ≡ false
      → IsBounded c
      → IsSound (register env instance resumed after p c service).sessions
  unfolding register
  register-IsSound env instance resumed after p c service s fresh b =
      let members = users c.room (service.sessions ++ c ∷ []) in
      let f = greet-Follows env instance resumed after p members c in
      Updated-IsSound _ _ (announce-Updated _) (
        snoc-IsSound service.sessions _ s
          (rw (session_key-Follows c _ f)
            (sym (any-contains service.sessions (session_key c)) ∙ fresh))
          (f.bounded b))

-- A connection as `check_join` makes it.
record IsNew (c : Session) : Type 0 where
  outgoing : c.outgoing ≡ []
  deferred : c.deferred ≡ []

IsNew-IsBounded :
    (c : Session) (room : Text) (n : ℕ) (syncing : Bool)
    → IsNew c
    → IsBounded (record c { room = room; through = n; syncing = syncing })
IsNew-IsBounded c room n syncing h = record {
  queued = ground (arith, h.outgoing);
  held = ground (arith, h.deferred);
}

module _ (codec : Codec) where
  open codec use {Cipher, Nonce}

  check_join-IsNew :
      (env : Env Nonce) (service : Server Cipher) (id : ℕ) (request : Frames.Join) (c : Session)
      → check_join env service id request ≡ ok c
      → IsNew c
  unfolding check_join
  check_join-IsNew env service id request c e = record {
    outgoing = ground (arith, e);
    deferred = ground (arith, e);
  }

  enter-IsSound :
      (env : Env Nonce) (request : Frames.Join) (c : Session) (room : Text)
      (service s' : Server Cipher)
      → IsSound service.sessions
      → IsNew c
      → enter codec env request (record c { room = room }) service ≡ ok s'
      → IsSound s'.sessions
  unfolding enter session_key
  enter-IsSound env request c room service s' s h e =
      let client = record c { room = room } in
      let (u, fresh, e1) =
        >>=-eq-ok
          (refuse (any (λ d. text_eq (session_key d) (session_key client)) service.sessions)
            (failure name_taken))
          _ e in
      let (latest, _, e2) =
        >>=-eq-ok (or_failure (Backend.latest_id room (env.fails 1) service.backend)) _ e1 in
      let instance = Backend.instance_id room service.backend in
      let resumed = text_eq request.instance_id instance in
      let after = if resumed then pos_part request.after_id else 0 in
      let (_, _, e3) =
        >>=-eq-ok
          (refuse (ltb_ℤ request.after_id (pos 0) || ltb_ℤ (pos latest) request.after_id && resumed)
            (failure invalid_cursor))
          _ e2 in
      let (p, _, e4) =
        >>=-eq-ok
          (or_failure (
            Backend.page codec room (if resumed then negsuc 0 else pos 0) (pos after) latest
              (env.fails 2) service.backend))
          _ e3 in
      subst (λ (r : Result Failure (Server Cipher)). Lands (λ x. IsSound x.sessions) r) e4
        (register-IsSound env instance resumed after p
          (record client { through = latest; syncing = resumed }) service s (refuse-eq-ok _ _ fresh)
          (IsNew-IsBounded c room latest resumed h))

  admit-IsSound :
      (env : Env Nonce) (request : Frames.Join) (c : Session) (service : Server Cipher)
      → IsSound service.sessions
      → IsNew c
      → IsSound (admit codec env request c service).0.sessions
  unfolding admit
  admit-IsSound env request c service s h =
      if_intro (λ (x : Server Cipher × Option Failure). IsSound x.0.sessions) service.closed
        (λ _. s)
        λ _. elim (Result-cases (open_repository env request.access_key service.backend)) [
          | inr (f, e) ↦ rw e s
          | inl ((room, b), e) ↦
              let opened = record service { backend = b } in
              elim (Result-cases (enter codec env request (record c { room = room }) opened)) [
                | inr (f, e') ↦ rw (e, e') s
                | inl (s', e') ↦ rw (e, e') (enter-IsSound env request c room opened s' s h e')
              ]
        ]

  pub join-IsSound :
      (env : Env Nonce) (id : ℕ) (request : Frames.Join) (service : Server Cipher)
      → IsSound service.sessions
      → IsSound (join codec env id request service).0.sessions
  unfolding join
  join-IsSound env id request service s = elim (Result-cases (check_join env service id request)) [
    | inr (f, e) ↦ rw (join, e) s
    | inl (c, e) ↦
        rw (join, e)
          (admit-IsSound env request c service s (check_join-IsNew env service id request c e))
  ]
