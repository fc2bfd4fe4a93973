-- ===== src/Server/Kaomoji.antt =====
-- internal/server/kaomoji.go: the catalog of kaomoji that a server offers, read again for every
-- request and kept when the new one is not valid. The lock and the log are not modelled.
pub mod Serving
use spacechat.Prelude.{
  ℕ, ◌≡◌, ◌≤◌, refl, sym, ◌∙◌, Bool, true, false, List, [], ◌∷◌, ◌⊎◌, inl, inr, Option, none, some,
  arith, Text, text_eq, ltb, if◌then◌else◌, if_intro, length, Result, ok, err, ◌>>=◌, refuse,
  Result-cases, subst,
}
use spacechat.Kaomoji.{Catalog, CatalogError, max_catalog_bytes, parse}

pub data SourceError : Type 0 where
  unreadable unencodable too_large : SourceError
  bad_catalog : CatalogError → SourceError

-- `kaomojiSource`
pub record Source : Type 0 where
  pub path : Text
  pub body : List ℕ
  pub etag : Text
  pub last_failure : Option SourceError

-- The file system, `encoding/json` and the digest; `read` gives at most one byte more than the limit.
pub record Files : Type 0 where
  pub read : Text → Option (List ℕ)
  pub unmarshal : List ℕ → Option Catalog
  pub marshal : Catalog → Option (List ℕ)
  pub digest : List ℕ → Text

module _ (files : Files) where
  open files use {read, unmarshal, marshal, digest}

  -- `kaomoji.ReadFile`
  unfoldable pub read_file : Text → Result SourceError Catalog
  read_file path = elim (read path) [
    | none ↦ err unreadable
    | some raw ↦ (elim (parse unmarshal raw) [ ok c ↦ ok c | err e ↦ err (bad_catalog e) ])
  ]

  -- `replace`
  unfoldable pub replace : Catalog → Source → Result SourceError Source
  replace catalog source = elim (marshal catalog) [
    | none ↦ err unencodable
    | some body ↦
        if ltb max_catalog_bytes (length body)
        then err too_large
        else ok (record source { body = body; etag = digest body })
  ]

  unfoldable pub reload : Source → Result SourceError Source
  reload source = do catalog ← read_file source.path; replace catalog source

  unfoldable pub settle : Source → Result SourceError Source → Source
  settle source (ok s) = record s { last_failure = none }
  settle source (err e) = record source { last_failure = some e }

  -- `current`, the source after it; what it returns are its body and tag.
  unfoldable pub current : Source → Source
  current source = if text_eq source.path [] then source else settle source (reload source)

  -- `newKaomojiSource`; `default` is the embedded catalog.
  unfoldable pub new_source : Catalog → Text → Result SourceError Source
  new_source default path = do
    catalog ← (if text_eq path [] then ok default else read_file path)
    replace catalog (record { path = path; body = []; etag = []; last_failure = none })

-- The answer of `serveKaomoji`.
pub data Answer : Type 0 where
  shutting_down not_modified : Answer
  content : List ℕ → Text → Answer

unfoldable pub serve : Bool → Text → Source → Answer
serve closed none_match source =
    if closed
    then shutting_down
    else if text_eq none_match source.etag
    then not_modified
    else content source.body source.etag
