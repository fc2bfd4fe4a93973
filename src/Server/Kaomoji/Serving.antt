-- ===== src/Server/Kaomoji/Serving.antt =====
-- What a server's catalog source holds, from its start on.
use spacechat.Prelude.{
  ℕ, ◌≡◌, ◌≤◌, refl, List, [], ◌∷◌, inl, inr, Option, some, arith, Text, text_eq, if◌then◌else◌,
  if_intro, length, Result, ok, err, >>=-eq-ok, ok_inj, Result-cases, Option-cases, Bool-cases,
  subst,
}
use spacechat.Kaomoji.{Catalog, max_catalog_bytes, parse}
use spacechat.Kaomoji.Valid.{IsCatalog, parse-IsCatalog}
use spacechat.Server.Kaomoji.{
  Source, SourceError, Files, read_file, replace, reload, settle, current, new_source,
}

-- The body is a valid catalog's, within the limit, and the tag is the body's.
pub record IsServing (files : Files) (source : Source) : Type 0 where
  pub catalog : Catalog
  pub valid : IsCatalog catalog
  pub encoded : files.marshal catalog ≡ some source.body
  pub tagged : source.etag ≡ files.digest source.body
  pub within : length source.body ≤ max_catalog_bytes

module _ (files : Files) where
  replace-IsServing :
      (c : Catalog) (source s : Source)
      → IsCatalog c
      → replace files c source ≡ ok s
      → IsServing files s
  unfolding replace
  replace-IsServing c source s v e = elim (Option-cases (files.marshal c)) [
    | inl stuck ↦ absurd (ground (arith, e, stuck))
    | inr (body, made) ↦ record {
      catalog = c;
      valid = v;
      encoded = ground (arith, e, made);
      tagged = ground (arith, e, made);
      within = ground (arith, e, made);
    }
  ]

  read_file-IsCatalog : (path : Text) (c : Catalog) → read_file files path ≡ ok c → IsCatalog c
  unfolding read_file
  read_file-IsCatalog path c e = elim (Option-cases (files.read path)) [
    | inl gone ↦ absurd (ground (arith, e, gone))
    | inr (raw, there) ↦ elim (Result-cases (parse files.unmarshal raw)) [
      | inl (d, read) ↦ (parse-IsCatalog files.unmarshal raw c (ground (arith, e, there, read))).2
      | inr (x, bad) ↦ absurd (ground (arith, e, there, bad))
    ]
  ]

  settle-IsServing :
      (source : Source) (r : Result SourceError Source)
      → reload files source ≡ r
      → IsServing files source
      → IsServing files (settle files source r)
  unfolding settle reload
  settle-IsServing source (err x) e v = record {
    catalog = v.catalog;
    valid = v.valid;
    encoded = v.encoded;
    tagged = v.tagged;
    within = v.within;
  }
  settle-IsServing source (ok s) e v =
      let (c, read, made) = >>=-eq-ok (read_file files source.path) _ e in
      let w = replace-IsServing c source s (read_file-IsCatalog source.path c read) made in
      record {
        catalog = w.catalog;
        valid = w.valid;
        encoded = w.encoded;
        tagged = w.tagged;
        within = w.within;
      }

  current-IsServing :
      (source : Source) → IsServing files source → IsServing files (current files source)
  unfolding current
  current-IsServing source v =
      if_intro (IsServing files) (text_eq source.path []) (λ _. v)
        (λ _. settle-IsServing source _ refl v)

  new_source-IsServing :
      (default : Catalog) (path : Text) (s : Source)
      → IsCatalog default
      → new_source files default path ≡ ok s
      → IsServing files s
  unfolding new_source
  new_source-IsServing default path s v e =
      let (c, read, made) =
        >>=-eq-ok (if text_eq path [] then ok default else read_file files path) _ e in
      replace-IsServing c _ s
        (elim (Bool-cases (text_eq path [])) [
          | inl embedded ↦
              subst IsCatalog (ok_inj {E = SourceError} (ground (arith, embedded, read))) v
          | inr own ↦ read_file-IsCatalog path c (ground (arith, own, read))
        ])
        made

-- The requests one after another; before each of them the file may have changed.
unfoldable pub requests : Files → List (Text → Option (List ℕ)) → Source → Source
requests files [] source = source
requests files (read ∷ reads) source =
    requests files reads (current (record files { read = read }) source)

requests-IsServing :
    (files : Files) (reads : List (Text → Option (List ℕ))) (source : Source)
    → IsServing files source
    → IsServing files (requests files reads source)
unfolding requests
requests-IsServing files [] source v = v
requests-IsServing files (read ∷ reads) source v =
    let now = record files { read = read } in
    let w = current-IsServing now source (record {
      catalog = v.catalog;
      valid = v.valid;
      encoded = v.encoded;
      tagged = v.tagged;
      within = v.within;
    }) in
    requests-IsServing files reads _ (record {
      catalog = w.catalog;
      valid = w.valid;
      encoded = w.encoded;
      tagged = w.tagged;
      within = w.within;
    })

-- From a start that succeeds with a valid embedded catalog on, whatever the file holds at each request, the server offers the encoding
-- of a valid catalog, of at most 1 MiB, under the tag that belongs to it.
pub source-IsServing :
    (files : Files) (default : Catalog) (path : Text) (s : Source)
    (reads : List (Text → Option (List ℕ)))
    → IsCatalog default
    → new_source files default path ≡ ok s
    → IsServing files (requests files reads s)
source-IsServing files default path s reads v e =
    requests-IsServing files reads s (new_source-IsServing files default path s v e)
