-- ===== src/Server/Run.antt =====
-- The steps of a server: what happens to it, one event after another. Every operation holds the
-- server's lock, so that the events are one sequence.
use spacechat.Prelude.{
  ℕ, ◌≡◌, refl, Result, ok, err, List, [], ◌∷◌, arith, length, ◌≤◌, any, if_intro, ◌==◌, subst, sym,
}
use spacechat.Protocol.Frames
use spacechat.Protocol.Frames.{Frame, Request}
use spacechat.SecureStore.Sealing.{Codec}
use spacechat.Server.Session.{Session, cancel}
use spacechat.Server.State.{Server, Env, close, leave, write, break, take_frame, rest_of}
use spacechat.Server.Join.{join}
use spacechat.Server.Handle.{handle}
use spacechat.Server.Backend.{Backend, RepositoryError}
use spacechat.Server.Clear.{clear_history, cleared_all, ClearError}
use spacechat.Server.Follows.{
  Follows, Follows-refl, cancel-Follows, clear_session-Follows, Updated, Updated-refl,
  Updated-trans, announce-Updated, modify-Updated, map-Updated,
}
use spacechat.Server.Sound.{IsSound, handle-Updated, Updated-IsSound, filter-IsSound}
use spacechat.Server.JoinSound.{join-IsSound}

pub data Event (Nonce : Type 0) : Type 0 where
  joins : Env Nonce → ℕ → Frames.Join → Event Nonce
  sends : Env Nonce → ℕ → Request → Event Nonce
  leaves : ℕ → Event Nonce
  writes : ℕ → Event Nonce
  breaks : ℕ → Event Nonce
  clears : Env Nonce → Event Nonce
  closes : Event Nonce

module _ (codec : Codec) where
  open codec use {Cipher, Nonce}

  unfoldable pub step : Event Nonce → Server Cipher → Server Cipher
  step (joins env id request) service = (join codec env id request service).0
  step (sends env id request) service = handle codec env id request service
  step (leaves id) service = leave id service
  step (writes id) service = write id service
  step (breaks id) service = break id service
  step (clears env) service = (clear_history env service).0
  step closes service = close service

  unfoldable pub run : List (Event Nonce) → Server Cipher → Server Cipher
  run [] service = service
  run (event ∷ events) service = run events (step event service)

length-rest_of : (frames : List Frame) → length (rest_of frames) ≤ length frames
unfolding rest_of
length-rest_of [] = omega arith
length-rest_of (f ∷ fs) = omega arith

take_frame-Follows : (c : Session) → Follows c (take_frame c)
unfolding take_frame
take_frame-Follows c =
    if_intro (Follows c) c.cancelled (λ _. Follows-refl c)
      λ _. record {
        id = refl;
        name = refl;
        room = refl;
        owner = refl;
        bounded = λ b. record {
          queued = ground (arith, length-rest_of c.outgoing, b.queued);
          held = b.held;
        };
      }

module _ {Cipher : Type 0} where
  cleared_all-Updated :
      (now : ℕ) (service : Server Cipher) (result : Result RepositoryError (ℕ × Backend Cipher))
      → Updated service.sessions (cleared_all now service result).0.sessions
  unfolding cleared_all
  cleared_all-Updated now service (err e) = Updated-refl service.sessions
  cleared_all-Updated now service (ok (deleted, backend)) =
      Updated-trans service.sessions _ _
        (map-Updated _ service.sessions (clear_session-Follows now deleted backend))
        (announce-Updated _)

  pub clear_history-Updated :
      {Nonce : Type 0} (env : Env Nonce) (service : Server Cipher)
      → Updated service.sessions (clear_history env service).0.sessions
  unfolding clear_history
  clear_history-Updated env service =
      if_intro (λ (x : Server Cipher × Result ClearError ℕ). Updated service.sessions x.0.sessions)
        service.closed (λ _. Updated-refl service.sessions)
        (λ _. cleared_all-Updated env.now service _)

module _ (codec : Codec) where
  open codec use {Cipher, Nonce}

  step-IsSound :
      (event : Event Nonce) (service : Server Cipher)
      → IsSound service.sessions
      → IsSound (step codec event service).sessions
  unfolding step leave write break close
  step-IsSound (joins env id request) service s = join-IsSound codec env id request service s
  step-IsSound (sends env id request) service s =
      Updated-IsSound _ _ (handle-Updated codec env id request service) s
  step-IsSound (leaves id) service s =
      if_intro (λ (x : Server Cipher). IsSound x.sessions) (any (λ c. c.id == id) service.sessions)
        (λ _. Updated-IsSound _ _ (announce-Updated _) (filter-IsSound _ service.sessions s))
        (λ _. s)
  step-IsSound (writes id) service s =
      Updated-IsSound _ _ (modify-Updated id _ service.sessions take_frame-Follows) s
  step-IsSound (breaks id) service s =
      Updated-IsSound _ _ (modify-Updated id _ service.sessions cancel-Follows) s
  step-IsSound (clears env) service s = Updated-IsSound _ _ (clear_history-Updated env service) s
  step-IsSound closes service s =
      Updated-IsSound _ _ (map-Updated cancel service.sessions cancel-Follows) s

  run-keeps :
      (events : List (Event Nonce)) (service : Server Cipher)
      → IsSound service.sessions
      → IsSound (run codec events service).sessions
  unfolding run
  run-keeps [] service s = s
  run-keeps (event ∷ events) service s = run-keeps events _ (step-IsSound event service s)

  -- Whatever sequence of joins, requests, departures, writes, broken writers, clearings of the history
  -- and closings a server goes through, starting with no connection: no two connections have the same
  -- room and name, no connection's queue holds more than 256 frames, and none holds back more than 128.
  pub run-IsSound :
      (events : List (Event Nonce)) (service : Server Cipher)
      → service.sessions ≡ []
      → IsSound (run codec events service).sessions
  run-IsSound events service empty =
      run-keeps events service (subst IsSound (sym empty) (record { keys = tt; bounds = tt }))
