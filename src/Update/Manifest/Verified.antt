-- ===== src/Update/Manifest/Verified.antt =====
-- What a client may rely on in a manifest that it verified.
use spacechat.Prelude.{
  ℕ, ◌≡◌, ◌≤◌, ◌<◌, refl, ap, ◌∙◌, Bool, true, false, not, ◌||◌, List, Option, some, arith, Text,
  text_eq_iff, length, ltb, ◌==◌, any, Result, ok, err, >>=-eq-ok, refuse-eq-ok, ok_inj,
  or_error-eq-ok, refuse, or_error, subst, Option-cases, inl, inr,
}
use spacechat.Prelude.Int.{ℤ, pos, negsuc, ltb_ℤ, leb_ℤ, eq_ℤ}
use spacechat.Prelude.TextMap.{find}
use spacechat.Unicode.{is_control, valid_string}
use spacechat.Update.Version.{Version, VersionError, parse_version, compare_version}
use spacechat.Update.Manifest.{
  Artifact, Manifest, ManifestError, max_artifact_size, is_digest, windows, linux, windows_file,
  linux_file, check_artifact, validate, verify_manifest, or_manifest_error, unsupported_schema,
  invalid_latest, invalid_minimum, invalid_notes, minimum_exceeds_latest, invalid_key,
  invalid_signature, invalid_json, trailing_json, control_in_notes, wrong_count,
}

-- The manifest has a file for the platform: with the expected name, a size within the limit and a digest.
pub record Offers (m : Manifest) (platform file : Text) : Type 0 where
  pub artifact : Artifact
  pub listed : find platform m.artifacts ≡ some artifact
  pub named : artifact.file ≡ file
  pub size : ℕ
  pub sized : artifact.size ≡ pos size
  pub positive : 0 < size
  pub within : size ≤ max_artifact_size
  pub digest : is_digest artifact.sha256 ≡ true

size_cases :
    (z : ℤ)
    → leb_ℤ z (pos 0) || ltb_ℤ (pos max_artifact_size) z ≡ false
    → (n : ℕ) × (z ≡ pos n) × (0 < n) × (n ≤ max_artifact_size)
size_cases (pos n) h = (n, refl, ground arith, ground arith)
size_cases (negsuc n) h = ground arith

check_artifact-Offers :
    (m : Manifest) (platform file : Text)
    → check_artifact m platform file ≡ ok tt
    → Offers m platform file
unfolding check_artifact
check_artifact-Offers m platform file e = elim (Option-cases (find platform m.artifacts)) [
  | inl missing ↦ absurd (ground (arith, missing, e))
  | inr (a, found) ↦
      let (n, sized, positive, within) = size_cases a.size (ground (arith, e, found)) in
      record {
        artifact = a;
        listed = found;
        named = (text_eq_iff a.file file).0 (ground (arith, e, found));
        size = n;
        sized = sized;
        positive = positive;
        within = within;
        digest = ground (arith, e, found);
      }
]

-- What `validate` establishes.
pub record Release (m : Manifest) : Type 0 where
  pub latest : Version
  pub minimum : Version
  pub schema : eq_ℤ m.schema (pos 1) ≡ true
  pub latest_parsed : parse_version m.latest_version ≡ ok latest
  pub minimum_parsed : parse_version m.minimum_supported_version ≡ ok minimum
  pub ordered : ltb_ℤ (pos 0) (compare_version minimum latest) ≡ false
  pub notes :
      (valid_string m.release_notes ≡ true)
      × (length m.release_notes ≤ 4000)
      × (any is_control m.release_notes ≡ false)
  pub on_windows : Offers m windows (windows_file latest)
  pub on_linux : Offers m linux (linux_file latest)

version_ok :
    (r : Result VersionError Version) (e : ManifestError) {v : Version}
    → or_manifest_error r e ≡ ok v
    → r ≡ ok v
version_ok (ok v) e h = ground arith
version_ok (err x) e h = ground arith

validate-Release : (m : Manifest) → validate m ≡ ok tt → Release m
unfolding validate
validate-Release m e =
    let (_, schema, e1) = >>=-eq-ok (refuse (not (eq_ℤ m.schema (pos 1))) unsupported_schema) _ e in
    let (latest, latest_ok, e2) =
      >>=-eq-ok (or_manifest_error (parse_version m.latest_version) invalid_latest) _ e1 in
    let (minimum, minimum_ok, e3) =
      >>=-eq-ok (or_manifest_error (parse_version m.minimum_supported_version) invalid_minimum) _
        e2 in
    let (_, ordered, e4) =
      >>=-eq-ok (refuse (ltb_ℤ (pos 0) (compare_version minimum latest)) minimum_exceeds_latest) _
        e3 in
    let (_, notes, e5) =
      >>=-eq-ok
        (refuse (not (valid_string m.release_notes) || ltb 4000 (length m.release_notes))
          invalid_notes)
        _ e4 in
    let (_, control, e6) =
      >>=-eq-ok (refuse (any is_control m.release_notes) control_in_notes) _ e5 in
    let (_, _, e7) = >>=-eq-ok (refuse (not (length m.artifacts == 2)) wrong_count) _ e6 in
    let (_, on_windows, on_linux) =
      >>=-eq-ok (check_artifact m windows (windows_file latest)) _ e7 in
    let noted = refuse-eq-ok _ _ notes in
    record {
      latest = latest;
      minimum = minimum;
      schema = ground (arith, refuse-eq-ok _ _ schema);
      latest_parsed = version_ok _ _ latest_ok;
      minimum_parsed = version_ok _ _ minimum_ok;
      ordered = refuse-eq-ok _ _ ordered;
      notes = (ground (arith, noted), ground (arith, noted), refuse-eq-ok _ _ control);
      on_windows = check_artifact-Offers m _ _ on_windows;
      on_linux = check_artifact-Offers m _ _ on_linux;
    }

module _ (verify : List ℕ → List ℕ → List ℕ → Bool)
    (decode : List ℕ → Option (Manifest × Bool)) where
  -- A manifest that verification gives was signed with the key, is all that the signed bytes hold, and is
  -- a release: both versions parse and the minimum is not above the latest, the notes are within their
  -- limits, and there is a file of the right name, size and digest for each platform.
  pub verify_manifest-Release :
      (raw signature key : List ℕ) (m : Manifest)
      → verify_manifest verify decode raw signature key ≡ ok m
      → (verify key raw signature ≡ true) × (decode raw ≡ some (m, false)) × Release m
  unfolding verify_manifest
  verify_manifest-Release raw signature key m e =
      let (_, _, e1) = >>=-eq-ok (refuse (not (length key == 32)) invalid_key) _ e in
      let (_, signed, e2) =
        >>=-eq-ok
          (refuse (not (length signature == 64) || not (verify key raw signature))
            invalid_signature)
          _ e1 in
      let ((m', more), read, e3) = >>=-eq-ok (or_error (decode raw) invalid_json) _ e2 in
      let (_, ended, e4) = >>=-eq-ok (refuse more trailing_json) _ e3 in
      let (_, valid, same) = >>=-eq-ok (validate m') _ e4 in
      let told : m' ≡ m = ok_inj same in
      let whole = refuse-eq-ok _ _ ended in
      (
        ground (arith, refuse-eq-ok _ _ signed),
        or_error-eq-ok _ _ read ∙ ap (λ x. some (x, more)) told ∙ ap (λ b. some (m, b)) whole,
        subst Release told (validate-Release m' valid),
      )
