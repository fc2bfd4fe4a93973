-- ===== src/Tui/Examples.antt =====
-- Examples of the laws on a chat with two messages, a screen with it, and a dialog for another room.
use spacechat.Prelude.{
  any, length, ℕ, ◌≡◌, ◌⊎◌, refl, true, false, List, [], ◌∷◌, none, some, arith, text_eq, codes,
}
use spacechat.Prelude.TextMap.{find}
use spacechat.Protocol.Frames.{Message, at, parse_time}
use spacechat.Pages.{message_at}
use spacechat.Client.{Network}
use spacechat.Tui.Keys.{enter, key}
use spacechat.Tui.Timeline.{merge}
use spacechat.Tui.Timeline.Laws.{Increasing, latest, merge-latest}
use spacechat.Tui.Chat.{
  Chat, online, no_notice, status, disconnected, connected, confirm_recall, send_body, apply_event,
  apply_status, RecallPicker, no_pick_notice,
}
use spacechat.Tui.Chat.Account.{Accounted, answers, discards, apply_event-Accounted}
use spacechat.Tui.Chat.History.{scroll, scroll-visible}
use spacechat.Tui.Chat.Shown.{visible}
use spacechat.Kaomoji.{Item, Category}
use spacechat.Tui.Picker.{KaomojiPicker, entry_at, clamp, category_id, text_of, matching, refresh}
use spacechat.Tui.Picker.Refresh.{InRange, refresh-InRange}
use spacechat.Tui.Recall.{nth, recallable, update_recall, press_recall, confirm_or_send}
use spacechat.Tui.Recall.Confirmed.{apply_events, Quiet, Asks, second_key}
use spacechat.Tui.Screen.{Screen, Dialog, Candidate, on_access_key, joining_chat, no_switch_notice}
use spacechat.Tui.Switch.{submit_switch, candidate_event}
use spacechat.Tui.Switch.Started.{Submitted, Led, submit_switch-Submitted, candidate_event-Led}
use spacechat.Tui.Update.{update, send_draft}
use spacechat.Tui.Update.Tended.{Tended}
use spacechat.Tui.Update.Always.{update-Tended}
use spacechat.Tui.Update.Draft.{UnderWay, send_draft-UnderWay}

abbrev said : ℕ → Message
said n = record {
  id = n;
  nickname = codes "ann";
  body = codes "hi";
  created_at = at 5;
  mentions = [];
  recalled = false;
  can_recall = true;
  owner_id = [];
}

abbrev network : Network
network = record {
  instance = codes "i";
  cursor = 4;
  ever_connected = true;
  ready = true;
  alive = true;
  welcomed = true;
  outgoing = [];
  events = [];
}

abbrev chat : Chat
chat = record {
  name = codes "ann";
  network = some network;
  source = 0;
  joined = true;
  connected = true;
  state = online;
  notice = no_notice;
  messages = said 3 ∷ said 4 ∷ [];
  users = codes "ann" ∷ [];
  pending = (codes "send-1", codes "hello") ∷ [];
  recalls = [];
  recaller = none;
  issues = [];
  has_more = true;
  loading = false;
  sequence = 1;
}

abbrev room : List Message
room = said 1 ∷ said 2 ∷ said 3 ∷ said 4 ∷ []

merge-latest_example :
    Increasing (merge (said 4 ∷ said 2 ∷ []) (said 3 ∷ said 4 ∷ []))
    × ((id : ℕ)
        → message_at id (merge (said 4 ∷ said 2 ∷ []) (said 3 ∷ said 4 ∷ []))
          ≡ latest id (message_at id (said 3 ∷ said 4 ∷ [])) (said 4 ∷ said 2 ∷ []))
merge-latest_example =
    merge-latest (said 4 ∷ said 2 ∷ []) (said 3 ∷ said 4 ∷ []) ((omega arith, tt), (tt, tt))

apply_event-Accounted_example :
    (answers (codes "send-1") (status disconnected []) ≡ true)
    ⊎ (discards (status disconnected []) ≡ true)
    ⊎ Accounted (codes "send-1") (codes "hello") (apply_event (status disconnected []) chat)
unfolding find text_eq
apply_event-Accounted_example =
    apply_event-Accounted (codes "send-1") (codes "hello") (status disconnected []) chat refl

scroll-visible_example :
    ((scroll 2 4 room chat).messages ≡ visible 4 room) × ((scroll 2 4 room chat).has_more ≡ false)
scroll-visible_example =
    scroll-visible 2 4 room (said 1 ∷ said 2 ∷ []) chat
      (omega arith, (omega arith, (omega arith, (omega arith, tt)))) (refl, refl) (omega arith)
      (omega arith)

abbrev picker : RecallPicker
picker = record { selected = 1; confirm_id = 0; notice = no_pick_notice }

abbrev confirmed : RecallPicker
confirmed = record { selected = 1; confirm_id = 3; notice = confirm_recall }

second_key_example :
    let waiting = apply_events (status connected [] ∷ []) (update_recall 9 enter picker chat) in
    Quiet waiting (update_recall 10 enter confirmed waiting)
    ⊎ Asks 10 3 waiting (update_recall 10 enter confirmed waiting)
unfolding nth recallable update_recall press_recall confirm_or_send apply_event apply_status
    parse_time
second_key_example =
    second_key 9 10 enter picker confirmed chat (said 3) (status connected [] ∷ []) refl refl refl

abbrev screen : Screen
screen = record {
  chat = chat;
  nickname = codes "ann";
  access_key = codes "secret";
  focus = on_access_key;
  input = codes "draft";
  switcher = none;
  has_upgrade = false;
  has_quit = false;
  clients = 1;
  started = (0, (codes "ann", codes "secret")) ∷ [];
  cancelled = [];
}

abbrev login : Screen
login = record screen { chat = record chat { joined = false; connected = false } }

update-Tended_example : Tended (update 9 (key enter []) login)
update-Tended_example = update-Tended 9 (key enter []) login (refl, refl)

abbrev dialog : Dialog
dialog = record {
  key = codes "other";
  nickname = codes "ann";
  on_key = true;
  notice = no_switch_notice;
  confirm = true;
  waiting = false;
  waiting_failed = false;
  candidate = none;
}

abbrev calm : Screen
calm = record screen { chat = record chat { pending = [] }; switcher = some dialog }

submit_switch-Submitted_example : Submitted dialog calm (submit_switch dialog calm)
submit_switch-Submitted_example = submit_switch-Submitted dialog calm

abbrev candidate : Candidate
candidate = record { access_key = codes "other"; chat = joining_chat (codes "ann") 1 }

candidate_event-Led_example :
    Led false
      (status connected [])
      candidate
      dialog
      calm
      (candidate_event false (status connected []) candidate dialog calm)
candidate_event-Led_example = candidate_event-Led false (status connected []) candidate dialog calm

send_draft-UnderWay_example :
    let after = send_draft screen (send_body screen.input screen.chat) in
    ((after.input ≡ []) × UnderWay screen.input screen.chat after.chat)
    ⊎ ((after.input ≡ screen.input)
        × (after.chat.pending ≡ screen.chat.pending)
        × (after.chat.network ≡ screen.chat.network))
send_draft-UnderWay_example = send_draft-UnderWay screen

abbrev smile : Item
smile = record { text = codes ":)"; keywords = codes "glad" ∷ [] }

abbrev glad : Category
glad = record { id = codes "glad"; name = codes "Glad"; items = smile ∷ [] }

abbrev sad : Category
sad = record {
  id = codes "sad";
  name = codes "Sad";
  items = record { text = codes ":("; keywords = [] } ∷ [];
}

abbrev pick : KaomojiPicker
pick = record { search = codes "gl"; category = some 0; selected = 0; categories = glad ∷ [] }

refresh-InRange_example :
    let after = refresh (λ text. text) (sad ∷ glad ∷ []) pick in
    let items = matching (λ text. text) pick in
    let text = text_of (entry_at (clamp 0 (length items)) items) in
    InRange after.category after.categories
    × (after.categories ≡ sad ∷ glad ∷ [])
    × ((any (λ c. text_eq c.id (category_id (some 0) (glad ∷ []))) (sad ∷ glad ∷ []) ≡ false)
        ⊎ (category_id after.category (sad ∷ glad ∷ []) ≡ category_id (some 0) (glad ∷ [])))
    × ((any (λ i. text_eq i.text text) (matching (λ t. t) after) ≡ false)
        ⊎ (text_of (entry_at after.selected (matching (λ t. t) after)) ≡ text))
refresh-InRange_example = refresh-InRange (λ text. text) (sad ∷ glad ∷ []) pick
