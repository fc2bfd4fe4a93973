-- ===== src/Kaomoji.antt =====
-- internal/kaomoji/catalog.go: the catalog of kaomoji and its checks.
pub mod Valid
mod Examples
use spacechat.Prelude.{
  ℕ, ◌+◌, Bool, true, false, ◌||◌, not, List, [], ◌∷◌, Option, none, some, Text, text_eq, ltb, ◌==◌,
  if◌then◌else◌, length, any, Result, ok, err, ◌>>=◌, ◌>>◌, refuse, or_error,
}
use spacechat.Prelude.Int.{ℤ, pos, eq_ℤ}
use spacechat.Prelude.TextList.{contains}
use spacechat.Protocol.Validate.{TextError, validate_body}

pub record Item : Type 0 where
  pub text : Text
  pub keywords : List Text

pub record Category : Type 0 where
  pub id : Text
  pub name : Text
  pub items : List Item

pub record Catalog : Type 0 where
  pub version : ℤ
  pub categories : List Category

pub data CatalogError : Type 0 where
  too_large invalid_json bad_version bad_category_count bad_id bad_name : CatalogError
  no_items too_many_items bad_item duplicate_item too_many_keywords bad_keyword : CatalogError

-- `MaxCatalogBytes`
abbrev pub max_catalog_bytes : ℕ
max_catalog_bytes = 1048576

unfoldable pub is_multiline : Text → Bool
is_multiline = any λ c. c == 13 || c == 10

-- Whether `ValidateItem` returns no error.
unfoldable pub is_item : Text → Bool
is_item text = elim (validate_body text) [ ok _ ↦ not (is_multiline text) | err e ↦ false ]

unfoldable pub check_keywords : List Text → Result CatalogError (Unit {0})
check_keywords [] = ok tt
check_keywords (k ∷ ks) = if not (is_item k) then err bad_keyword else check_keywords ks

-- The loop over a category's items; `seen` holds the texts so far.
unfoldable pub check_items : List Text → List Item → Result CatalogError (Unit {0})
check_items seen [] = ok tt
check_items seen (item ∷ items) = do
  refuse (not (is_item item.text)) bad_item
  refuse (contains seen item.text) duplicate_item
  refuse (ltb 32 (length item.keywords)) too_many_keywords
  check_keywords item.keywords
  check_items (item.text ∷ seen) items

-- The loop over the categories; `ids` and `count` are as in the code.
unfoldable pub check_groups : List Text → ℕ → List Category → Result CatalogError (Unit {0})
check_groups ids count [] = ok tt
check_groups ids count (group ∷ groups) = do
  refuse (not (is_item group.id) || contains ids group.id) bad_id
  refuse (not (is_item group.name)) bad_name
  refuse (length group.items == 0) no_items
  refuse (ltb 4096 (count + length group.items)) too_many_items
  check_items [] group.items
  check_groups (group.id ∷ ids) (count + length group.items) groups

unfoldable pub validate_groups : List Category → Result CatalogError (Unit {0})
validate_groups groups = do
  refuse (length groups == 0 || ltb 64 (length groups)) bad_category_count
  check_groups [] 0 groups

-- `Parse`, with `json.Unmarshal` as a parameter.
unfoldable pub parse : (List ℕ → Option Catalog) → List ℕ → Result CatalogError Catalog
parse unmarshal raw = do
  refuse (ltb max_catalog_bytes (length raw)) too_large
  next ← or_error (unmarshal raw) invalid_json
  refuse (not (eq_ℤ next.version (pos 1))) bad_version
  validate_groups next.categories
  ok next
