-- ===== src/Kaomoji/Examples.antt =====
-- Examples of the laws on the catalog of kaomoji.
use spacechat.Prelude.{
  ℕ, ◌≡◌, ◌≤◌, refl, List, [], ◌∷◌, Option, none, some, Text, codes, text_eq, length, ok, true,
}
use spacechat.Prelude.Int.{pos}
use spacechat.Unicode.{
  trim_space, trim_left, trim_right, push_unless_blank, is_space, valid_string, without, is_control,
  is_format,
}
use spacechat.Protocol.Validate.{validate_body, validate_text, check_characters}
use spacechat.Kaomoji.{
  Catalog, max_catalog_bytes, is_item, is_multiline, check_keywords, check_items, check_groups,
  validate_groups, parse,
}
use spacechat.Kaomoji.Valid.{IsCatalog, parse-IsCatalog}
use spacechat.Server.Kaomoji.{Source, Files, new_source, replace, read_file}
use spacechat.Server.Kaomoji.Serving.{IsServing, requests, source-IsServing}

abbrev smile : Text
smile = codes "owo"

abbrev catalog : Catalog
catalog = record {
  version = pos 1;
  categories =
      record { id = smile; name = smile; items = record { text = smile; keywords = [] } ∷ [] } ∷ [];
}

abbrev unmarshal : List ℕ → Option Catalog
unmarshal raw = some catalog

smile_item : is_item smile ≡ true
unfolding is_item is_multiline validate_body validate_text check_characters text_eq trim_space
    trim_left trim_right push_unless_blank is_space valid_string without is_control is_format
smile_item = refl

parsed : parse unmarshal (codes "catalog") ≡ ok catalog
unfolding parse validate_groups check_groups check_items check_keywords
parsed = rw smile_item refl

parse-IsCatalog_example :
    (length (codes "catalog") ≤ max_catalog_bytes)
    × (unmarshal (codes "catalog") ≡ some catalog)
    × IsCatalog catalog
parse-IsCatalog_example = parse-IsCatalog unmarshal (codes "catalog") catalog parsed

catalog_valid : IsCatalog catalog
catalog_valid = (parse-IsCatalog unmarshal (codes "catalog") catalog parsed).2

abbrev files : Files
files = record {
  read = λ path. some (codes "catalog");
  unmarshal = unmarshal;
  marshal = λ c. some (codes "catalog");
  digest = λ body. codes "tag";
}

abbrev started : Source
started = record {
  path = codes "f";
  body = codes "catalog";
  etag = codes "tag";
  last_failure = none;
}

starts : new_source files catalog (codes "f") ≡ ok started
unfolding new_source replace text_eq read_file parse validate_groups check_groups check_items
    check_keywords is_item is_multiline validate_body validate_text check_characters trim_space
    trim_left trim_right push_unless_blank is_space valid_string without is_control is_format
starts = refl

source-IsServing_example :
    IsServing files (requests files ((λ path. none) ∷ (λ path. some []) ∷ []) started)
source-IsServing_example =
    source-IsServing files catalog (codes "f") started ((λ path. none) ∷ (λ path. some []) ∷ [])
      catalog_valid starts
