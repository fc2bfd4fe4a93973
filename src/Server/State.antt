-- ===== src/Server/State.antt =====
-- The state of a server (`Server` of server.go), and the operations on all its connections.
use spacechat.Prelude.{
  ℕ, ◌-◌, Bool, true, false, ◌&&◌, ◌||◌, not, List, [], ◌∷◌, map, Option, none, some, Text, text_eq,
  ltb, leb, ◌==◌, if◌then◌else◌, filter, any,
}
use spacechat.Protocol.Frames.{
  Message, Page, Frame, Kind, encode, presence, parse_time, recall_window,
}
use spacechat.Update.Version.{Version}
use spacechat.Unicode.{Tables}
use spacechat.SecureStore.{Fails}
use spacechat.Server.Backend.{Backend}
use spacechat.Server.Session.{Session, cancel, deliver}

-- `sessions` is a map by `session_key`; `minimum` is that of the update catalog, if there is one;
-- `key_hash` is `accessKeyHash` of a configured key.
pub record Server (Cipher : Type 0) : Type 0 where
  pub backend : Backend Cipher
  pub sessions : List Session
  pub closed : Bool
  pub key_hash : Option Text
  pub minimum : Option Version

-- What a step takes from outside: the time, random texts, the answers of the database (for each of
-- a step's operations), the hashes and the tables of characters.
pub record Env (Nonce : Type 0) : Type 0 where
  pub now : ℕ
  pub nonce : Nonce
  pub epoch : Text
  pub fails : ℕ → Fails
  pub hash_key : Text → Text
  pub hash_token : List ℕ → Text
  pub mac : Text → Text
  pub tables : Tables

-- The order of `sort.Strings`.
text_le : Text → Text → Bool
text_le [] t = true
text_le (c ∷ s) [] = false
text_le (c ∷ s) (d ∷ t) = ltb c d || c == d && text_le s t

insert_text : Text → List Text → List Text
unfolding text_le
insert_text t [] = t ∷ []
insert_text t (u ∷ us) = let rest = insert_text t us in if text_le t u then t ∷ u ∷ us else u ∷ rest

-- `sort.Strings`
pub sort_strings : List Text → List Text
unfolding insert_text
sort_strings [] = []
sort_strings (t ∷ ts) = insert_text t (sort_strings ts)

-- `users`
unfoldable pub users : Text → List Session → List Text
users room sessions =
    sort_strings (map (λ (c : Session). c.name) (filter (λ c. text_eq c.room room) sessions))

-- `presence`
unfoldable pub announce : List Session → List Session
announce sessions =
    map (λ c. deliver (encode Kind.presence [] (presence (users c.room sessions))) c) sessions

-- The connection `id` is changed by `f`.
unfoldable pub modify : ℕ → (Session → Session) → List Session → List Session
modify id f [] = []
modify id f (c ∷ cs) = let rest = modify id f cs in if c.id == id then f c ∷ cs else c ∷ rest

unfoldable pub session_at : ℕ → List Session → Option Session
session_at id [] = none
session_at id (c ∷ cs) = let rest = session_at id cs in if c.id == id then some c else rest

unfoldable pub rest_of : List Frame → List Frame
rest_of [] = []
rest_of (frame ∷ frames) = frames

unfoldable pub take_frame : Session → Session
unfolding rest_of
take_frame client =
    if client.cancelled then client else record client { outgoing = rest_of client.outgoing }

-- `visibleMessage`
unfoldable pub visible_message : ℕ → Session → Message → Message
visible_message now client m = record m {
  can_recall =
      not (text_eq client.owner [])
      && text_eq m.owner_id client.owner
      && not m.recalled
      && (elim (parse_time m.created_at) [
        | none ↦ false
        | some created ↦ leb (now - created) recall_window
      ]);
}

-- `visiblePage`
unfoldable pub visible_page : ℕ → Session → Page → Page
visible_page now client p = record p { messages = map (visible_message now client) p.messages }

module _ {Cipher : Type 0} where
  -- `Close`
  unfoldable pub close : Server Cipher → Server Cipher
  close service = record service { closed = true; sessions = map cancel service.sessions }

  -- `leave`: the entry under the connection's key goes, if it is this connection.
  unfoldable pub leave : ℕ → Server Cipher → Server Cipher
  leave id service =
      if any (λ c. c.id == id) service.sessions
      then record service { sessions = announce (filter (λ c. not (c.id == id)) service.sessions) }
      else service

  -- One round of `writeLoop`: a frame leaves the queue.
  unfoldable pub write : ℕ → Server Cipher → Server Cipher
  write id service = record service { sessions = modify id take_frame service.sessions }

  -- A write or a ping of the heartbeat fails, or a limit of time passes.
  unfoldable pub break : ℕ → Server Cipher → Server Cipher
  break id service = record service { sessions = modify id cancel service.sessions }
