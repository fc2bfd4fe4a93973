-- ===== src/Tui/Picker/Refresh.antt =====
-- What a new catalog leaves of the choice.
use spacechat.Prelude.{
  ℕ, zero, suc, ◌+◌, ◌≡◌, ◌<◌, refl, sym, ap, ◌∙◌, true, false, List, [], ◌∷◌, Option, none, some,
  arith, Text, text_eq, text_eq_iff, any, length, subst, Bool-cases, inl, inr, ◌⊎◌,
}
use spacechat.Kaomoji.{Item, Category}
use spacechat.Tui.Picker.{
  KaomojiPicker, PickerKey, up, down, page_up, page_down, tab, back_tab, entry_at, clamp,
  category_with, item_with, id_of, text_of, category_id, or_first, from_place, moved, matching,
  matches, refresh, move,
}

-- The category is one of the picker's.
abbrev pub InRange : Option ℕ → List Category → Type 0
InRange none categories = Unit {0}
InRange (some k) categories = k < length categories

-- A category is found at a place behind the index, if there is one with the id.
category_with-found :
    (id : Text) (index : ℕ) (cs : List Category)
    → any (λ c. text_eq c.id id) cs ≡ true
    → (k : ℕ) × (category_with id index cs ≡ some (index + k))
      × (id_of (entry_at k cs) ≡ id)
      × (k < length cs)
unfolding category_with entry_at
category_with-found id index [] h = cc
category_with-found id index (c ∷ cs) h = elim (Bool-cases (text_eq c.id id)) [
  | inl hit ↦ (0, rw hit (ap some (omega arith)), (text_eq_iff c.id id).0 hit, omega arith)
  | inr miss ↦
      let k = category_with-found id (suc index) cs (ground (arith, h, miss)) in
      (suc k.0, rw miss (k.1 ∙ ap some (omega arith)), k.2, omega (arith, k.3))
]

category_with-missing :
    (id : Text) (index : ℕ) (cs : List Category)
    → any (λ c. text_eq c.id id) cs ≡ false
    → category_with id index cs ≡ none
unfolding category_with
category_with-missing id index [] h = refl
category_with-missing id index (c ∷ cs) h =
    ground (arith, h, category_with-missing id (suc index) cs)

category_with-InRange : (id : Text) (cs : List Category) → InRange (category_with id 0 cs) cs
category_with-InRange id cs = elim (Bool-cases (any (λ c. text_eq c.id id) cs)) [
  | inl there ↦
      let k = category_with-found id 0 cs there in
      subst (λ o. InRange o cs) (sym k.1) (omega (arith, k.3))
  | inr missing ↦ subst (λ o. InRange o cs) (sym (category_with-missing id 0 cs missing)) tt
]

item_with-found :
    (text : Text) (index : ℕ) (is : List Item)
    → any (λ i. text_eq i.text text) is ≡ true
    → (k : ℕ) × (item_with text index is ≡ some (index + k)) × (text_of (entry_at k is) ≡ text)
unfolding item_with entry_at
item_with-found text index [] h = cc
item_with-found text index (i ∷ is) h = elim (Bool-cases (text_eq i.text text)) [
  | inl hit ↦ (0, rw hit (ap some (omega arith)), (text_eq_iff i.text text).0 hit)
  | inr miss ↦
      let k = item_with-found text (suc index) is (ground (arith, h, miss)) in
      (suc k.0, rw miss (k.1 ∙ ap some (omega arith)), k.2)
]

category_id-found :
    (id : Text) (cs : List Category)
    → any (λ c. text_eq c.id id) cs ≡ true
    → category_id (category_with id 0 cs) cs ≡ id
category_id-found id cs h =
    let k = category_with-found id 0 cs h in
    ap (λ o. category_id o cs) (k.1 ∙ ap some (omega arith)) ∙ k.2

item_with-text :
    (text : Text) (is : List Item)
    → any (λ i. text_eq i.text text) is ≡ true
    → text_of (entry_at (or_first (item_with text 0 is)) is) ≡ text
item_with-text text is h =
    let k = item_with-found text 0 is h in
    ap (λ o. text_of (entry_at (or_first o) is)) (k.1 ∙ ap some (omega arith)) ∙ k.2

-- When a new catalog comes while the picker is open, its category is one of the catalog's, the one with the id of before
-- if there is one; and if the catalog shows the text that was selected, a kaomoji with this text is selected still.
pub refresh-InRange :
    (lower : Text → Text) (catalog : List Category) (picker : KaomojiPicker)
    → let id = category_id picker.category picker.categories in
      let items = matching lower picker in
      let text = text_of (entry_at (clamp picker.selected (length items)) items) in
      let after = refresh lower catalog picker in
      InRange after.category after.categories
      × (after.categories ≡ catalog)
      × ((any (λ c. text_eq c.id id) catalog ≡ false) ⊎ (category_id after.category catalog ≡ id))
      × ((any (λ i. text_eq i.text text) (matching lower after) ≡ false)
          ⊎ (text_of (entry_at after.selected (matching lower after)) ≡ text))
unfolding refresh matches
refresh-InRange lower catalog picker =
    let id = category_id picker.category picker.categories in
    let items = matching lower picker in
    let text = text_of (entry_at (clamp picker.selected (length items)) items) in
    let shown = matching lower (refresh lower catalog picker) in
    (
      category_with-InRange id catalog,
      refl,
      elim (Bool-cases (any (λ c. text_eq c.id id) catalog)) [
        | inl there ↦ inr (category_id-found id catalog there)
        | inr missing ↦ inl missing
      ],
      elim (Bool-cases (any (λ i. text_eq i.text text) shown)) [
        | inl there ↦ inr (item_with-text text shown there)
        | inr missing ↦ inl missing
      ],
    )

from_place-InRange :
    (place : ℕ) (cs : List Category) → place < length cs + 1 → InRange (from_place place) cs
from_place-InRange zero cs h = tt
from_place-InRange (suc k) cs h = omega (arith, h)

-- A key that moves the selection leaves the category one of the picker's.
pub move-InRange :
    (lower : Text → Text) (page : ℕ) (key : PickerKey) (picker : KaomojiPicker)
    → InRange picker.category picker.categories
    → InRange (move lower page key picker).category (move lower page key picker).categories
unfolding move matches moved
move-InRange lower page up picker h = h
move-InRange lower page down picker h = h
move-InRange lower page page_up picker h = h
move-InRange lower page page_down picker h = h
move-InRange lower page tab picker h = from_place-InRange _ picker.categories (omega arith)
move-InRange lower page back_tab picker h = from_place-InRange _ picker.categories (omega arith)
