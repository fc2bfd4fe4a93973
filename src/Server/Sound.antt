-- ===== src/Server/Sound.antt =====
-- The invariant of the connections: their keys are distinct and their queues within bounds.
use spacechat.Prelude.{
  ℕ, ◌≡◌, refl, sym, Bool, false, List, [], ◌∷◌, ◌++◌, map, arith, Text, if_intro, filter, All,
  All-append, subst,
}
use mathlib.Core.List.{map-append}
use spacechat.Prelude.TextList.{contains, Distinct, Distinct-snoc}
use spacechat.Protocol.Frames.{Request}
use spacechat.SecureStore.Sealing.{Codec}
use spacechat.Server.Session.{Session, session_key}
use spacechat.Server.State.{Server, Env}
use spacechat.Server.Handle.{publish, publish_recall, handle, fail}
use spacechat.Server.Cases.{Ends, handle_cases}
use spacechat.Server.Follows.{
  IsBounded, Follows-trans, Updated, Updated-refl, Updated-trans, enqueue-Follows, cancel-Follows,
  push_sync-Follows, modify-Updated, broadcast-Updated,
}

module _ (codec : Codec) where
  open codec use {Cipher, Nonce}

  handle-Updated-Ends :
      (env : Env Nonce) (id : ℕ) (request : Request) (service : Server Cipher) (client : Session)
      → Ends codec (λ s. Updated service.sessions s.sessions) env id client request service
  unfolding fail publish publish_recall
  handle-Updated-Ends env id request service client =
      let cs = service.sessions in
      record {
        same = Updated-refl cs;
        failed = λ code. modify-Updated id _ cs (enqueue-Follows _);
        unsaved = λ body e b h. modify-Updated id _ cs (enqueue-Follows _);
        saved = λ body m b h.
            Updated-trans cs _ _ (broadcast-Updated client.room _ cs)
              (modify-Updated id _ _ (λ c. enqueue-Follows _ c));
        withdrawn = λ number s s' m b h. broadcast-Updated client.room _ cs;
        shown = λ p. modify-Updated id _ cs (λ c. enqueue-Follows _ c);
        dropped =
            modify-Updated id _ cs
              (λ c. Follows-trans c _ _ (enqueue-Follows _ c) (cancel-Follows _));
        synced = λ p. modify-Updated id _ cs (push_sync-Follows env request.request_id p);
      }

  pub handle-Updated :
      (env : Env Nonce) (id : ℕ) (request : Request) (service : Server Cipher)
      → Updated service.sessions (handle codec env id request service).sessions
  handle-Updated env id request service =
      handle_cases codec (λ s. Updated service.sessions s.sessions) env id request service _ refl
        (Updated-refl service.sessions)
        (λ client _. handle-Updated-Ends env id request service client)

-- Keys are distinct, and every queue is within its bounds.
pub record IsSound (cs : List Session) : Type 0 where
  pub keys : Distinct (map session_key cs)
  pub bounds : All IsBounded cs

keys-Updated : (cs ds : List Session) → Updated cs ds → map session_key ds ≡ map session_key cs
unfolding session_key
keys-Updated [] [] u = refl
keys-Updated [] (d ∷ ds) u = absurd u
keys-Updated (c ∷ cs) [] u = absurd u
keys-Updated (c ∷ cs) (d ∷ ds) u = ground (arith, keys-Updated cs ds u.1)

bounds-Updated : (cs ds : List Session) → Updated cs ds → All IsBounded cs → All IsBounded ds
bounds-Updated [] [] u b = tt
bounds-Updated [] (d ∷ ds) u b = absurd u
bounds-Updated (c ∷ cs) [] u b = absurd u
bounds-Updated (c ∷ cs) (d ∷ ds) u b = (u.0.bounded b.0, bounds-Updated cs ds u.1 b.1)

pub Updated-IsSound : (cs ds : List Session) → Updated cs ds → IsSound cs → IsSound ds
Updated-IsSound cs ds u s = record {
  keys = subst Distinct (sym (keys-Updated cs ds u)) s.keys;
  bounds = bounds-Updated cs ds u s.bounds;
}

contains-filter :
    (p : Session → Bool) (cs : List Session) (key : Text)
    → contains (map session_key cs) key ≡ false
    → contains (map session_key (filter p cs)) key ≡ false
contains-filter p [] key h = refl
contains-filter p (c ∷ cs) key h = ground (arith, contains-filter p cs key)

pub filter-IsSound : (p : Session → Bool) (cs : List Session) → IsSound cs → IsSound (filter p cs)
filter-IsSound p [] s = record { keys = tt; bounds = tt }
filter-IsSound p (c ∷ cs) s =
    let rest = filter-IsSound p cs (record { keys = s.keys.1; bounds = s.bounds.1 }) in
    if_intro IsSound (p c)
      (λ _. record {
        keys = (contains-filter p cs (session_key c) s.keys.0, rest.keys);
        bounds = (s.bounds.0, rest.bounds);
      })
      (λ _. rest)

pub snoc-IsSound :
    (cs : List Session) (c : Session)
    → IsSound cs
    → contains (map session_key cs) (session_key c) ≡ false
    → IsBounded c
    → IsSound (cs ++ c ∷ [])
snoc-IsSound cs c s fresh b = record {
  keys =
      rw (map-append session_key cs (c ∷ []))
        (Distinct-snoc (map session_key cs) (session_key c) s.keys fresh);
  bounds = All-append _ cs (c ∷ []) s.bounds (b, tt);
}
