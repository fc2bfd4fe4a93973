-- ===== src/Tui/Keys.antt =====
-- The messages that a `Model` is given (bubbletea's `Msg`), by what `Update` tells apart.
use spacechat.Prelude.{ℕ, Bool, Text}
use spacechat.Tui.Chat.{Event}

-- A key by its `String()`; `paste` is "ctrl+v" or "shift+insert", `tab` is "tab" or "shift+tab", and
-- `page_up` says whether the viewport stands at its top afterwards.
pub data Key : Type 0 where
  esc enter tab up down f2 f5 paste page_down top bottom interrupt other : Key
  page_up : Bool → Key

-- With a key, the text that the focused field of the library holds after it has taken the key. A client's
-- event comes with its source and `closed`, and a mouse event with whether the viewport stands at its top.
pub data Input : Type 0 where
  key : Key → Text → Input
  network_event : ℕ → Bool → Event → Input
  switch_timeout : ℕ → Input
  mouse : Bool → Input
