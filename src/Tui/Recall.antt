-- ===== src/Tui/Recall.antt =====
-- recall_picker.go: choosing a message, confirming it, and asking the server to recall it.
pub mod Confirmed
use spacechat.Prelude.{
  ℕ, zero, suc, ◌+◌, ◌-◌, min, Bool, true, false, ◌&&◌, not, List, [], ◌∷◌, ◌++◌, Option, none,
  some, Text, codes, leb, ◌==◌, if◌then◌else◌, length, reverse, filter, Result, ok, err,
}
use spacechat.Prelude.Int.{pos}
use spacechat.Prelude.TextMap.{put}
use spacechat.Decimal.{print}
use spacechat.Protocol.Frames.{Message, parse_time, recall_window}
use spacechat.Client.{Network, QueueError, request_recall}
use spacechat.Tui.Keys.{Key, esc, enter, up, down, f5}
use spacechat.Tui.Timeline.{has_id}
use spacechat.Tui.Chat.{
  Chat, Notice, nothing_to_recall, recalling, RecallPicker, PickNotice, no_pick_notice,
  confirm_recall, expired, needs_link, not_recalled, is_empty, online_network,
}

abbrev pub recall_id : ℕ → Text
recall_id n = codes "recall-" ++ print n

abbrev pub tell_picker : RecallPicker → PickNotice → Chat → Chat
tell_picker picker text chat = record chat { recaller = some (record picker { notice = text }) }

unfoldable pub recall_asked : RecallPicker → ℕ → Chat → Result QueueError Network → Chat
recall_asked picker id chat (err e) = record chat {
  sequence = suc chat.sequence;
  recaller = some (record picker { notice = not_recalled e });
}
recall_asked picker id chat (ok network) = record chat {
  network = some network;
  sequence = suc chat.sequence;
  recalls = put (recall_id (suc chat.sequence)) id chat.recalls;
  notice = recalling;
  recaller = none;
}

unfoldable pub recall_over : RecallPicker → ℕ → Chat → Option Network → Chat
recall_over picker id chat none = tell_picker picker needs_link chat
recall_over picker id chat (some network) =
    recall_asked picker id chat (request_recall (recall_id (suc chat.sequence)) (pos id) network)

-- The message at a place of the list.
unfoldable pub nth : ℕ → List Message → Option Message
nth n [] = none
nth zero (m ∷ ms) = some m
nth (suc n) (m ∷ ms) = nth n ms

-- The first "enter" binds the confirmation to a message, the second sends it.
unfoldable pub confirm_or_send : RecallPicker → List Message → Chat → Option Message → Chat
confirm_or_send picker shown chat none = tell_picker picker expired chat
confirm_or_send picker shown chat (some m) =
    if picker.confirm_id == 0
    then tell_picker (record picker { confirm_id = m.id }) confirm_recall chat
    else if not (has_id picker.confirm_id shown)
    then tell_picker (record picker { confirm_id = 0 }) expired chat
    else recall_over picker picker.confirm_id chat (online_network chat.connected chat.network)

abbrev pub move_to : ℕ → RecallPicker → Chat → Chat
move_to place picker chat = record chat {
  recaller = some (record picker { selected = place; confirm_id = 0; notice = no_pick_notice });
}

unfoldable pub press_recall : Key → RecallPicker → List Message → Chat → Chat
press_recall esc picker shown chat = record chat { recaller = none }
press_recall f5 picker shown chat = record chat { recaller = none }
press_recall up picker shown chat = move_to (picker.selected - 1) picker chat
press_recall down picker shown chat =
    move_to (min (length shown - 1) (picker.selected + 1)) picker chat
press_recall enter picker shown chat = confirm_or_send picker shown chat (nth picker.selected shown)
press_recall _ picker shown chat = record chat { recaller = some picker }

-- `now` is the clock's.
module _ (now : ℕ) where
  abbrev pub is_recent : Option ℕ → Bool
  is_recent none = false
  is_recent (some created) = leb (now - created) recall_window

  abbrev pub is_recallable : Message → Bool
  is_recallable m = m.can_recall && not m.recalled && is_recent (parse_time m.created_at)

  -- `recallable`, the newest first.
  unfoldable pub recallable : List Message → List Message
  recallable messages = filter is_recallable (reverse messages)

  unfoldable pub open_recall : Chat → Chat
  open_recall chat =
      if is_empty (recallable chat.messages)
      then record chat { notice = nothing_to_recall }
      else record chat {
        recaller = some (record { selected = 0; confirm_id = 0; notice = no_pick_notice });
      }

  -- `updateRecall`, for the picker that is open.
  unfoldable pub update_recall : Key → RecallPicker → Chat → Chat
  update_recall key picker chat =
      let shown = recallable chat.messages in
      press_recall key (record picker { selected = min picker.selected (length shown - 1) }) shown
        chat
