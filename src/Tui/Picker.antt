-- ===== src/Tui/Picker.antt =====
-- The picker of kaomoji, internal/tui/kaomoji.go, without what "enter" and "ctrl+s" do with the chosen text.
-- `lower` is `strings.ToLower`.
pub mod Refresh
use spacechat.Prelude.{
  ℕ, zero, suc, ◌+◌, ◌-◌, ◌%◌, min, max, ◌==◌, Bool, true, false, ◌&&◌, ◌||◌, not, List, [], ◌∷◌,
  ◌++◌, Option, none, some, Text, text_eq, if◌then◌else◌, length, filter,
}
use spacechat.Unicode.{trim_space}
use spacechat.Kaomoji.{Item, Category}

-- `kaomojiPicker` but for its notice; a category of -1 is `none`.
pub record KaomojiPicker : Type 0 where
  pub search : Text
  pub category : Option ℕ
  pub selected : ℕ
  pub categories : List Category

-- `strings.HasPrefix` and `strings.Contains`
unfoldable pub has_prefix : Text → Text → Bool
has_prefix s [] = true
has_prefix [] (d ∷ t) = false
has_prefix (c ∷ s) (d ∷ t) = c == d && has_prefix s t

unfoldable pub contains_text : Text → Text → Bool
contains_text [] t = has_prefix [] t
contains_text (c ∷ s) t = has_prefix (c ∷ s) t || contains_text s t

-- `strings.Join` with a space.
unfoldable pub join_words : List Text → Text
join_words [] = []
join_words (w ∷ []) = w
join_words (w ∷ v ∷ ws) = w ++ b' ' ∷ join_words (v ∷ ws)

abbrev pub is_chosen : Option ℕ → ℕ → Bool
is_chosen none index = true
is_chosen (some k) index = k == index

-- The n-th of a list.
unfoldable pub entry_at {ℓ} : {A : Type ℓ} → ℕ → List A → Option A
entry_at n [] = none
entry_at zero (x ∷ xs) = some x
entry_at (suc n) (x ∷ xs) = entry_at n xs

abbrev pub clamp : ℕ → ℕ → ℕ
clamp selected count = min selected (count - 1)

-- `max(1, model.height-4)` is `page`; "shift+tab" is `back_tab`.
pub data PickerKey : Type 0 where
  up down page_up page_down tab back_tab : PickerKey

-- The index of the first category with the id.
unfoldable pub category_with : Text → ℕ → List Category → Option ℕ
category_with id index [] = none
category_with id index (c ∷ cs) =
    let rest = category_with id (suc index) cs in if text_eq c.id id then some index else rest

unfoldable pub item_with : Text → ℕ → List Item → Option ℕ
item_with text index [] = none
item_with text index (i ∷ is) =
    let rest = item_with text (suc index) is in if text_eq i.text text then some index else rest

abbrev pub id_of : Option Category → Text
id_of none = []
id_of (some c) = c.id

abbrev pub text_of : Option Item → Text
text_of none = []
text_of (some i) = i.text

abbrev pub category_id : Option ℕ → List Category → Text
category_id none categories = []
category_id (some k) categories = id_of (entry_at k categories)

abbrev pub or_first : Option ℕ → ℕ
or_first none = 0
or_first (some n) = n

abbrev pub to_place : Option ℕ → ℕ
to_place none = 0
to_place (some k) = suc k

abbrev pub from_place : ℕ → Option ℕ
from_place zero = none
from_place (suc k) = some k

-- Places 0 to `count - 1` stand for all categories and for each.
unfoldable pub moved : PickerKey → KaomojiPicker → ℕ → ℕ → ℕ → ℕ → ℕ → KaomojiPicker
moved up p page last at count place = record p { selected = at - 1 }
moved down p page last at count place = record p { selected = min last (at + 1) }
moved page_up p page last at count place = record p { selected = at - page }
moved page_down p page last at count place = record p { selected = min last (at + page) }
moved tab p page last at count place = record p {
  category = from_place ((place + 1 + count) % count);
  selected = 0;
}
moved back_tab p page last at count place = record p {
  category = from_place ((place + count - 1) % count);
  selected = 0;
}

module _ (lower : Text → Text) where
  abbrev pub searched : Category → Item → Text
  searched c item = lower (c.name ++ b' ' ∷ (item.text ++ b' ' ∷ join_words item.keywords))

  -- The loop over the categories, from an index on.
  unfoldable pub matches_from : Text → Option ℕ → ℕ → List Category → List Item
  matches_from query category index [] = []
  matches_from query category index (c ∷ cs) =
      let rest = matches_from query category (suc index) cs in
      if is_chosen category index
      then filter (λ item. contains_text (searched c item) query) c.items ++ rest
      else rest

  abbrev pub matching : KaomojiPicker → List Item
  matching picker =
      matches_from (lower (trim_space picker.search)) picker.category 0 picker.categories

  -- `matches` also brings the selection into the range of what it returns.
  unfoldable pub matches : KaomojiPicker → KaomojiPicker × List Item
  matches picker =
      let items = matching picker in
      (record picker { selected = clamp picker.selected (length items) }, items)

  -- The part of `applyKaomoji` about a picker that is open; `selected` is 0 when `matches` runs again.
  unfoldable pub refresh : List Category → KaomojiPicker → KaomojiPicker
  refresh catalog picker =
      let chosen = matches picker in
      let text = text_of (entry_at chosen.0.selected chosen.1) in
      let fresh = record chosen.0 {
        categories = catalog;
        category = category_with (category_id picker.category picker.categories) 0 catalog;
        selected = 0;
      } in
      record fresh { selected = or_first (item_with text 0 (matching fresh)) }

  -- The keys that move the selection.
  unfoldable pub move : ℕ → PickerKey → KaomojiPicker → KaomojiPicker
  move page key picker =
      let chosen = matches picker in
      let last = length chosen.1 - 1 in
      let at = chosen.0.selected in
      let count = length picker.categories + 1 in
      let place = to_place picker.category in moved key chosen.0 page last at count place
