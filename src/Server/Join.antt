-- ===== src/Server/Join.antt =====
-- `join` of server.go: the checks of a join, the opening of the room, and the first frames of a
-- connection. The failures' texts are not modelled.
use spacechat.Prelude.{
  ℕ, ◌+◌, ◌-◌, ◌*◌, Bool, true, false, ◌&&◌, ◌||◌, not, List, [], ◌∷◌, ◌++◌, Option, none, some,
  Text, codes, text_eq, leb, ◌==◌, if◌then◌else◌, any, length, Result, ok, err, ◌>>=◌, ◌>>◌, refuse,
}
use spacechat.Prelude.Int.{pos, negsuc, pos_part, ltb_ℤ}
use spacechat.Unicode.{trim_space}
use spacechat.Protocol.Frames.{
  Message, Page, Frame, Failure, Code, Welcome, encode, welcome, page, invalid_join, unauthorized,
  invalid_name, unavailable, storage_error, name_taken, invalid_cursor, upgrade_required,
  unsupported_client,
}
use spacechat.Protocol.Frames
use spacechat.Protocol.Validate.{validate_name}
use spacechat.AccessKey.{validate_key}
use spacechat.Update.Version.{Version, parse_version, compare_version, string}
use spacechat.Pages.{last_id}
use spacechat.SecureStore.Sealing.{Codec}
use spacechat.SecureStore
use spacechat.Server.Backend
use spacechat.Server.Backend.{Backend, plain, rooms, is_rooms}
use spacechat.Server.Session.{Session, enqueue, finish_sync, session_key}
use spacechat.Server.State.{Server, Env, users, announce, visible_page}

abbrev pub failure : Code → Failure
failure code = record { code = code; minimum_version = [] }

abbrev pub or_failure : {A : Type 0} → Result Backend.RepositoryError A → Result Failure A
or_failure (ok a) = ok a
or_failure (err e) = err (failure storage_error)

is_zero_version : Version → Bool
is_zero_version v = v.major == 0 && v.minor == 0 && v.patch == 0

-- `platform != "windows-amd64" && platform != "linux-amd64"`
abbrev pub is_supported : Text → Bool
is_supported platform =
    text_eq platform (codes "windows-amd64") || text_eq platform (codes "linux-amd64")

-- `checkClient`
unfoldable pub check_client : Option Version → Frames.Join → Result Failure (Unit {0})
unfolding is_zero_version
check_client none join = ok tt
check_client (some minimum) join =
    let refused : Failure = record { code = upgrade_required; minimum_version = string minimum } in
    let platform = join.client_os ++ b'-' ∷ join.client_arch in
    if text_eq join.client_version [] && is_zero_version minimum
    then ok tt
    else (elim (parse_version join.client_version) [
      | err e ↦ err refused
      | ok version ↦
          if ltb_ℤ (compare_version version minimum) (pos 0)
          then err refused
          else if is_supported platform
          then ok tt
          else err (failure unsupported_client)
    ])

-- `hex.DecodeString`
hex_value : ℕ → Option ℕ
hex_value c =
    if leb b'0' c && leb c b'9'
    then some (c - b'0')
    else if leb b'a' c && leb c b'f'
    then some (c - b'a' + 10)
    else if leb b'A' c && leb c b'F'
    then some (c - b'A' + 10)
    else none

push_byte : Option ℕ → Option ℕ → Option (List ℕ) → Option (List ℕ)
push_byte (some h) (some l) (some bytes) = some ((h * 16 + l) ∷ bytes)
push_byte _ _ _ = none

pub decode_hex : Text → Option (List ℕ)
unfolding hex_value push_byte
decode_hex [] = some []
decode_hex (h ∷ []) = none
decode_hex (h ∷ l ∷ s) = push_byte (hex_value h) (hex_value l) (decode_hex s)

-- The owner that a client token stands for; without a token there is none.
unfoldable pub token_owner : (Text → Text) → Text → Result Failure Text
unfolding decode_hex
token_owner sha256 token = if text_eq token [] then ok [] else (elim (decode_hex token) [
  | none ↦ err (failure invalid_join)
  | some bytes ↦ if length bytes == 32 then ok (sha256 bytes) else err (failure invalid_join)
])

-- `!service.authConfigured || subtle.ConstantTimeCompare(…) != 1`
abbrev refuses_key : Option Text → Text → Bool
refuses_key none provided = true
refuses_key (some hash) provided = not (text_eq hash provided)

module _ {Nonce : Type 0} where
  -- The first frames of a connection that is let in, as `users` stand with it.
  unfoldable pub greet : Env Nonce → Text → Bool → ℕ → Page → List Text → Session → Session
  greet env instance resumed after p members client =
      let welcomed =
        enqueue
          (encode Frames.Kind.welcome [] (
            welcome (record {
              instance_id = instance;
              through_id = client.through;
              resumed = resumed;
              users = members;
            })))
          client in
      let shown = visible_page env.now client p in
      if resumed
      then (let synced =
            record (enqueue (encode Frames.Kind.sync (codes "initial") (page shown)) welcomed) {
              cursor = last_id after p.messages;
            } in
          if p.has_more then synced else finish_sync synced)
      else finish_sync
          (enqueue (encode Frames.Kind.history (codes "initial") (page shown)) welcomed)

module _ {Cipher Nonce : Type 0} where
  -- The check of the access key; a room's key is only checked for its form.
  unfoldable pub check_access : Env Nonce → Server Cipher → Text → Result Failure (Unit {0})
  check_access env service key = elim service.backend [
    | plain s ↦ refuse (refuses_key service.key_hash (env.hash_key key)) (failure unauthorized)
    | rooms s ↦ (elim (validate_key key) [ ok _ ↦ ok tt | err e ↦ err (failure unauthorized) ])
  ]

  -- What `join` checks before it takes the lock: the connection with its name and owner.
  unfoldable pub check_join : Env Nonce → Server Cipher → ℕ → Frames.Join → Result Failure Session
  check_join env service id join = do
    check_client service.minimum join
    check_access env service join.access_key
    let name = trim_space join.nickname
    elim (validate_name name) [ ok _ ↦ ok tt | err e ↦ err (failure invalid_name) ]
    owner ← token_owner env.hash_token join.client_token
    ok (record {
      id = id;
      name = name;
      owner = owner;
      room = [];
      syncing = false;
      through = 0;
      cursor = 0;
      deferred = [];
      outgoing = [];
      cancelled = false;
    })

  -- The room of a key, which is registered in the store.
  unfoldable pub open_repository :
      Env Nonce → Text → Backend Cipher → Result Failure (Text × Backend Cipher)
  open_repository env key (plain s) = ok ([], plain s)
  open_repository env key (rooms s) = elim (SecureStore.open_room env.mac key (env.fails 0) s) [
    | ok (room, s') ↦ ok (room, rooms s')
    | err e ↦ err (failure storage_error)
  ]

  -- The connection enters the map, is greeted, and everybody hears who is there.
  unfoldable pub register :
      Env Nonce → Text → Bool → ℕ → Page → Session → Server Cipher → Server Cipher
  register env instance resumed after p client service =
      let members = users client.room (service.sessions ++ client ∷ []) in
      record service {
        sessions =
            announce (service.sessions ++ greet env instance resumed after p members client ∷ []);
      }

module _ (codec : Codec) where
  open codec use {Cipher, Nonce}

  -- The part of `join` behind the lock that reads the history. `pos_part` is the cursor itself, which
  -- is not negative there.
  unfoldable pub enter :
      Env Nonce → Frames.Join → Session → Server Cipher → Result Failure (Server Cipher)
  enter env join client service = do
    refuse (any (λ c. text_eq (session_key c) (session_key client)) service.sessions)
        (failure name_taken)
    latest ← or_failure (Backend.latest_id client.room (env.fails 1) service.backend)
    let instance = Backend.instance_id client.room service.backend
    let resumed = text_eq join.instance_id instance
    refuse (ltb_ℤ join.after_id (pos 0) || ltb_ℤ (pos latest) join.after_id && resumed)
        (failure invalid_cursor)
    let before = if resumed then negsuc 0 else pos 0
    let after = if resumed then pos_part join.after_id else 0
    p ←
        or_failure
          (Backend.page codec client.room before (pos after) latest (env.fails 2) service.backend)
    ok (
        register env instance resumed after p
          (record client { through = latest; syncing = resumed }) service)

  -- The connection's part behind the lock. A refusal leaves the connections as they were; the room
  -- may have been registered before it.
  unfoldable pub admit :
      Env Nonce → Frames.Join → Session → Server Cipher → Server Cipher × Option Failure
  admit env join client service =
      if service.closed
      then (service, some (failure unavailable))
      else (elim (open_repository env join.access_key service.backend) [
        | err f ↦ (service, some f)
        | ok (room, b) ↦
            let opened = record service { backend = b } in
            (elim (enter env join (record client { room = room }) opened) [
              | err f ↦ (opened, some f)
              | ok s ↦ (s, none)
            ])
      ])

  -- `join`
  unfoldable pub join : Env Nonce → ℕ → Frames.Join → Server Cipher → Server Cipher × Option Failure
  join env id request service = elim (check_join env service id request) [
    | err f ↦ (service, some f)
    | ok client ↦ admit env request client service
  ]
