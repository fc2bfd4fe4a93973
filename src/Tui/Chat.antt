-- ===== src/Tui/Chat.antt =====
-- `applyEvent`, `sendBody` and `loadOlder` of internal/tui/model.go.
pub mod State
pub mod Account
pub mod Shown
pub mod History
pub mod Kept
use spacechat.Prelude.{
  ℕ, suc, ◌+◌, Bool, true, false, ◌&&◌, ◌||◌, not, List, [], ◌∷◌, ◌++◌, map, Option, none, some,
  Text, codes, text_eq, ◌==◌, if◌then◌else◌, length, Result, ok, err,
}
use spacechat.Prelude.Int.{pos}
use spacechat.Prelude.TextMap.{find, put, remove}
use spacechat.Prelude.TextList.{contains}
use spacechat.Decimal.{print}
use spacechat.Protocol.Frames.{Message, Page, Failure, Code, Welcome, Recalled, Kind}
use spacechat.Protocol.Validate.{TextError, validate_body}
use spacechat.Client.{Incoming, Network, QueueError, request_send, request_history}
use spacechat.Tui.Timeline.{merge}
pub use State.*

abbrev pub is_empty : {A : Type 0} → List A → Bool
is_empty [] = true
is_empty (x ∷ xs) = false

abbrev pub unknown_issues : List (Text × Text) → List Issue
unknown_issues = map λ (p : Text × Text). result_unknown p.1

-- The case "disconnected".
unfoldable pub disconnect : Chat → Chat
disconnect chat =
    let dropped = record chat {
      connected = false;
      loading = false;
      state = retrying;
      notice = if is_empty chat.recalls then reconnecting else recall_unknown;
      recalls = [];
    } in
    if is_empty chat.pending then dropped else record dropped {
      notice = messages_unknown;
      issues = chat.issues ++ unknown_issues chat.pending;
      pending = [];
    }

-- The cases that end in a refusal.
unfoldable pub refuse_join : Text → Chat → Chat
refuse_join text chat = record chat { connected = false; joined = false; notice = detail text }

unfoldable pub apply_status : Status → Text → Chat → Chat
apply_status connected text chat = record chat {
  connected = true;
  state = online;
  notice = if is_empty chat.issues then no_notice else chat.notice;
}
apply_status connecting text chat = record chat { connected = false; state = joining }
apply_status disconnected text chat = disconnect chat
apply_status unauthorized text chat = refuse_join text chat
apply_status name_taken text chat = refuse_join text chat
apply_status invalid_name text chat = refuse_join text chat
apply_status invalid_address text chat = refuse_join text chat
apply_status tls_error text chat = refuse_join text chat
apply_status unsupported_client text chat = refuse_join text chat
apply_status upgrade_required text chat = chat
apply_status (unknown_status name) text chat = chat

-- The case "history_cleared".
unfoldable pub clear_history : Chat → Chat
clear_history chat = record chat {
  messages = [];
  issues = [];
  pending = [];
  recalls = [];
  recaller = none;
  has_more = false;
  loading = false;
  connected = true;
  state = online;
  notice = cleared_by_server;
}

unfoldable pub apply_welcome : Option Welcome → Chat → Chat
apply_welcome none chat = chat
apply_welcome (some w) chat = if w.resumed then record chat { users = w.users } else record chat {
  users = w.users;
  issues = [];
  pending = [];
  recalls = [];
  messages = [];
  has_more = false;
  loading = false;
}

unfoldable pub apply_presence : Option (List Text) → Chat → Chat
apply_presence none chat = chat
apply_presence (some users) chat = record chat { users = users }

unfoldable pub apply_page : Bool → Option Page → Chat → Chat
apply_page is_history none chat = chat
apply_page is_history (some p) chat =
    let shown = record chat { messages = merge p.messages chat.messages } in
    if is_history
    then record shown { has_more = p.has_more; loading = false; notice = no_notice }
    else shown

-- The notice after a message or an acknowledgement.
unfoldable pub message_notice : Bool → Text → Message → Text → Bool → Notice → Notice
message_notice is_message name m request_id settled notice =
    if is_message && not m.recalled && contains m.mentions name && not (text_eq m.nickname name)
    then mentioned_by m.nickname
    else if not (text_eq request_id []) && settled
    then no_notice
    else notice

unfoldable pub apply_message : Bool → Text → Option Message → Chat → Chat
apply_message is_message request_id none chat = chat
apply_message is_message request_id (some m) chat =
    let left = remove request_id chat.pending in
    record chat {
      pending = left;
      messages = merge (m ∷ []) chat.messages;
      notice = message_notice is_message chat.name m request_id (is_empty left) chat.notice;
    }

abbrev pub replace_by_id : Message → Message → Message
replace_by_id new m = if m.id == new.id then new else m

unfoldable pub apply_recalled : Text → Option Recalled → Chat → Chat
apply_recalled request_id none chat = chat
apply_recalled request_id (some r) chat = record chat {
  recalls = remove request_id chat.recalls;
  messages = map (replace_by_id r.message) chat.messages;
  notice = if text_eq request_id [] then chat.notice else recalled_done;
}

-- The end of the case "error", for the body that waits under the request's name.
unfoldable pub apply_failed : Text → Code → Option Text → Chat → Chat
apply_failed request_id code none chat = chat
apply_failed request_id code (some body) chat = record chat {
  issues = chat.issues ++ send_failed body code ∷ [];
  pending = remove request_id chat.pending;
}

unfoldable pub apply_error : Text → Option Failure → Chat → Chat
apply_error request_id none chat = chat
apply_error request_id (some f) chat =
    let told =
      apply_failed request_id f.code (find request_id chat.pending)
        (record chat { notice = failed_with f.code; recalls = remove request_id chat.recalls }) in
    if text_eq request_id (codes "older") then record told { loading = false } else told

-- The `switch` on the type of a frame.
unfoldable pub apply_frame : Kind → Incoming → Chat → Chat
apply_frame (Kind.other name) arrived chat =
    if text_eq name (codes "history_cleared") then clear_history chat else chat
apply_frame Kind.welcome arrived chat = apply_welcome arrived.payload.as_welcome chat
apply_frame Kind.presence arrived chat = apply_presence arrived.payload.as_presence chat
apply_frame Kind.history arrived chat = apply_page true arrived.payload.as_page chat
apply_frame Kind.sync arrived chat = apply_page false arrived.payload.as_page chat
apply_frame Kind.message arrived chat =
    apply_message true arrived.request_id arrived.payload.as_message chat
apply_frame Kind.ack arrived chat =
    apply_message false arrived.request_id arrived.payload.as_message chat
apply_frame Kind.recalled arrived chat =
    apply_recalled arrived.request_id arrived.payload.as_recalled chat
apply_frame Kind.error arrived chat = apply_error arrived.request_id arrived.payload.as_failure chat
apply_frame Kind.join arrived chat = chat
apply_frame Kind.send arrived chat = chat
apply_frame Kind.recall arrived chat = chat
apply_frame Kind.sync_complete arrived chat = chat

-- `applyEvent`
unfoldable pub apply_event : Event → Chat → Chat
apply_event (status s text) chat = apply_status s text chat
apply_event (frame arrived) chat = apply_frame arrived.kind arrived chat
apply_event nothing chat = chat

-- `fmt.Sprintf("send-%d", …)`
abbrev pub send_id : ℕ → Text
send_id n = codes "send-" ++ print n

-- `model.connected` and the client, if there is one.
abbrev pub online_network : Bool → Option Network → Option Network
online_network true network = network
online_network false network = none

-- After the client took the request or refused it; `sequence` has grown in both cases.
unfoldable pub sent : Text → Chat → Result QueueError Network → Bool × Chat
sent body chat (err e) =
    (false, record chat { sequence = suc chat.sequence; notice = not_queued e })
sent body chat (ok network) = (
  true,
  record chat {
    network = some network;
    sequence = suc chat.sequence;
    pending = put (send_id (suc chat.sequence)) body chat.pending;
    notice = sending;
  },
)

unfoldable pub send_valid : Text → Network → Chat → Result TextError (Unit {0}) → Bool × Chat
send_valid body network chat (err e) = (false, record chat { notice = invalid_body e })
send_valid body network chat (ok _) =
    sent body chat (request_send (send_id (suc chat.sequence)) body network)

unfoldable pub send_over : Text → Chat → Option Network → Bool × Chat
send_over body chat none = (false, record chat { notice = needs_connection })
send_over body chat (some network) = send_valid body network chat (validate_body body)

-- `sendBody`: whether the message was handed over.
unfoldable pub send_body : Text → Chat → Bool × Chat
send_body body chat = send_over body chat (online_network chat.connected chat.network)

unfoldable pub older_asked : Chat → Result QueueError Network → Chat
older_asked chat (err e) = record chat { notice = not_queued e }
older_asked chat (ok network) = record chat {
  network = some network;
  loading = true;
  notice = loading_older;
}

unfoldable pub older_of : Chat → List Message → Option Network → Chat
older_of chat [] network = chat
older_of chat (m ∷ ms) none = chat
older_of chat (m ∷ ms) (some network) = older_asked chat (request_history (pos m.id) network)

-- `loadOlder`; `at_top` is the viewport's.
unfoldable pub load_older : Bool → Chat → Chat
load_older at_top chat =
    if not at_top || not chat.has_more || chat.loading
    then chat
    else older_of chat chat.messages (online_network chat.connected chat.network)
