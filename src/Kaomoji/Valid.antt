-- ===== src/Kaomoji/Valid.antt =====
-- What the checks of a catalog establish.
use spacechat.Prelude.{
  ℕ, ◌+◌, ◌≤◌, ◌<◌, ◌≡◌, refl, ap, ◌∙◌, true, false, ◌||◌, not, List, [], ◌∷◌, map, Option, some,
  arith, Text, text_eq_iff, ltb, ◌==◌, length, All, ok, >>=-eq-ok, refuse-eq-ok, ok_inj,
  or_error-eq-ok, refuse, or_error, subst,
}
use spacechat.Prelude.Int.{pos, eq_ℤ}
use spacechat.Prelude.TextList.{contains, Distinct}
use spacechat.Kaomoji.{
  Item, Category, Catalog, max_catalog_bytes, is_item, check_keywords, check_items, check_groups,
  validate_groups, parse, bad_item, duplicate_item, too_many_keywords, bad_id, bad_name, no_items,
  too_many_items, too_large, invalid_json, bad_version, bad_category_count,
}

pub record IsItem (item : Item) : Type 0 where
  pub text_ok : is_item item.text ≡ true
  pub few : length item.keywords ≤ 32
  pub keywords_ok : All (λ k. is_item k ≡ true) item.keywords

pub record IsCategory (group : Category) : Type 0 where
  pub id_ok : is_item group.id ≡ true
  pub name_ok : is_item group.name ≡ true
  pub some_item : 0 < length group.items
  pub texts : Distinct (map (λ (i : Item). i.text) group.items)
  pub items_ok : All IsItem group.items

check_keywords-ok : (ks : List Text) → check_keywords ks ≡ ok tt → All (λ k. is_item k ≡ true) ks
unfolding check_keywords
check_keywords-ok [] e = tt
check_keywords-ok (k ∷ ks) e = (ground (arith, e), check_keywords-ok ks (ground (arith, e)))

-- No text of one list is in the other.
abbrev Apart : List Text → List Text → Type 0
Apart seen ts = All (λ t. contains seen t ≡ false) ts

Apart-head : (t : Text) (seen ts : List Text) → Apart (t ∷ seen) ts → contains ts t ≡ false
Apart-head t seen [] a = refl
Apart-head t seen (u ∷ ts) a =
    ground (arith, a.0, Apart-head t seen ts a.1, text_eq_iff t u, text_eq_iff u t)

Apart-tail : (t : Text) (seen ts : List Text) → Apart (t ∷ seen) ts → Apart seen ts
Apart-tail t seen [] a = tt
Apart-tail t seen (u ∷ ts) a = (ground (arith, a.0), Apart-tail t seen ts a.1)

-- A list read one by one against what was seen before.
abbrev Fresh : List Text → List Text → Type 0
Fresh seen ts = Distinct ts × Apart seen ts

Fresh-cons :
    (t : Text) (seen ts : List Text)
    → contains seen t ≡ false
    → Fresh (t ∷ seen) ts
    → Fresh seen (t ∷ ts)
Fresh-cons t seen ts n (d, a) = ((Apart-head t seen ts a, d), (n, Apart-tail t seen ts a))

check_items-ok :
    (seen : List Text) (items : List Item)
    → check_items seen items ≡ ok tt
    → Fresh seen (map (λ (i : Item). i.text) items) × All IsItem items
unfolding check_items
check_items-ok seen [] e = ((tt, tt), tt)
check_items-ok seen (item ∷ items) e =
    let (_, valid, e1) = >>=-eq-ok (refuse (not (is_item item.text)) bad_item) _ e in
    let (_, new, e2) = >>=-eq-ok (refuse (contains seen item.text) duplicate_item) _ e1 in
    let (_, few, e3) = >>=-eq-ok (refuse (ltb 32 (length item.keywords)) too_many_keywords) _ e2 in
    let (_, keywords, e4) = >>=-eq-ok (check_keywords item.keywords) _ e3 in
    let (fresh, all) = check_items-ok (item.text ∷ seen) items e4 in
    (
      Fresh-cons item.text seen _ (refuse-eq-ok _ _ new) fresh,
      (
        record {
          text_ok = ground (arith, refuse-eq-ok _ _ valid);
          few = ground (arith, refuse-eq-ok _ _ few);
          keywords_ok = check_keywords-ok item.keywords keywords;
        },
        all,
      ),
    )

-- The number of items of all categories.
unfoldable pub item_count : List Category → ℕ
item_count [] = 0
item_count (g ∷ gs) = length g.items + item_count gs

check_groups-ok :
    (ids : List Text) (count : ℕ) (groups : List Category)
    → check_groups ids count groups ≡ ok tt
    → count ≤ 4096
    → Fresh ids (map (λ (g : Category). g.id) groups)
      × All IsCategory groups
      × (count + item_count groups ≤ 4096)
unfolding check_groups item_count
check_groups-ok ids count [] e le = ((tt, tt), tt, omega (arith, le))
check_groups-ok ids count (g ∷ gs) e le =
    let (_, id, e1) = >>=-eq-ok (refuse (not (is_item g.id) || contains ids g.id) bad_id) _ e in
    let (_, name, e2) = >>=-eq-ok (refuse (not (is_item g.name)) bad_name) _ e1 in
    let (_, full, e3) = >>=-eq-ok (refuse (length g.items == 0) no_items) _ e2 in
    let (_, small, e4) =
      >>=-eq-ok (refuse (ltb 4096 (count + length g.items)) too_many_items) _ e3 in
    let (_, items, e5) = >>=-eq-ok (check_items [] g.items) _ e4 in
    let id_ok = refuse-eq-ok _ _ id in
    let read = check_items-ok [] g.items items in
    let (fresh, all, total) =
      check_groups-ok (g.id ∷ ids) (count + length g.items) gs e5
        (ground (arith, refuse-eq-ok _ _ small)) in
    (
      Fresh-cons g.id ids _ (ground (arith, id_ok)) fresh,
      (
        record {
          id_ok = ground (arith, id_ok);
          name_ok = ground (arith, refuse-eq-ok _ _ name);
          some_item = ground (arith, refuse-eq-ok _ _ full);
          texts = read.0.0;
          items_ok = read.1;
        },
        all,
      ),
      omega (arith, total),
    )

pub record IsCatalog (c : Catalog) : Type 0 where
  pub version : eq_ℤ c.version (pos 1) ≡ true
  pub some_category : 0 < length c.categories
  pub few : length c.categories ≤ 64
  pub ids : Distinct (map (λ (g : Category). g.id) c.categories)
  pub categories_ok : All IsCategory c.categories
  pub items : item_count c.categories ≤ 4096

validate_groups-IsCatalog :
    (c : Catalog)
    → eq_ℤ c.version (pos 1) ≡ true
    → validate_groups c.categories ≡ ok tt
    → IsCatalog c
unfolding validate_groups
validate_groups-IsCatalog c version e =
    let groups = c.categories in
    let (_, bounds, e1) =
      >>=-eq-ok (refuse (length groups == 0 || ltb 64 (length groups)) bad_category_count) _ e in
    let within = refuse-eq-ok _ _ bounds in
    let (fresh, all, total) = check_groups-ok [] 0 groups e1 (omega arith) in
    record {
      version = version;
      some_category = ground (arith, within);
      few = ground (arith, within);
      ids = fresh.0;
      categories_ok = all;
      items = omega (arith, total);
    }

-- A catalog that is read is at most 1 MiB, of version 1, with 1 to 64 categories of different ids, none of
-- them empty and together at most 4096 items; within a category no text is there twice, and all ids,
-- names, texts and at most 32 keywords of an item are valid one-line texts.
pub parse-IsCatalog :
    (unmarshal : List ℕ → Option Catalog) (raw : List ℕ) (c : Catalog)
    → parse unmarshal raw ≡ ok c
    → (length raw ≤ max_catalog_bytes) × (unmarshal raw ≡ some c) × IsCatalog c
unfolding parse
parse-IsCatalog unmarshal raw c e =
    let (_, short, e1) = >>=-eq-ok (refuse (ltb max_catalog_bytes (length raw)) too_large) _ e in
    let (next, read, e2) = >>=-eq-ok (or_error (unmarshal raw) invalid_json) _ e1 in
    let (_, version, e3) = >>=-eq-ok (refuse (not (eq_ℤ next.version (pos 1))) bad_version) _ e2 in
    let (_, valid, same) = >>=-eq-ok (validate_groups next.categories) _ e3 in
    let told : next ≡ c = ok_inj same in
    (
      ground (arith, refuse-eq-ok _ _ short),
      or_error-eq-ok _ _ read ∙ ap some told,
      subst IsCatalog told
          (validate_groups-IsCatalog next (ground (arith, refuse-eq-ok _ _ version)) valid),
    )
