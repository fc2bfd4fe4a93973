-- ===== src/Update/Manifest.antt =====
-- internal/update/manifest.go: the manifest that a server signs for its clients.
pub mod Verified
mod Examples
use spacechat.Prelude.{
  ℕ, ◌^◌, Bool, true, false, ◌&&◌, ◌||◌, not, List, [], ◌∷◌, ◌++◌, Option, none, some, Text, codes,
  text_eq, ltb, leb, ◌==◌, if◌then◌else◌, length, all, any, Result, ok, err, ◌>>=◌, ◌>>◌, refuse,
  or_error,
}
use spacechat.Prelude.Int.{ℤ, pos, ltb_ℤ, leb_ℤ, eq_ℤ}
use spacechat.Prelude.TextMap.{find}
use spacechat.Unicode.{is_control, valid_string}
use spacechat.Update.Version.{Version, VersionError, parse_version, compare_version, string}

-- `MaxArtifactSize`
abbrev pub max_artifact_size : ℕ
max_artifact_size = 134217728

pub record Artifact : Type 0 where
  pub file : Text
  pub size : ℤ
  pub sha256 : Text

-- `artifacts` is a Go map: no key stands in it twice.
pub record Manifest : Type 0 where
  pub schema : ℤ
  pub latest_version : Text
  pub minimum_supported_version : Text
  pub release_notes : Text
  pub artifacts : List (Text × Artifact)

pub data ManifestError : Type 0 where
  invalid_key invalid_signature invalid_json trailing_json : ManifestError
  unsupported_schema invalid_latest invalid_minimum minimum_exceeds_latest : ManifestError
  invalid_notes control_in_notes wrong_count missing_artifact : ManifestError
  invalid_filename invalid_size invalid_digest unsupported_platform : ManifestError

-- `or_error` for the result of `ParseVersion`.
abbrev or_manifest_error :
    Result VersionError Version → ManifestError → Result ManifestError Version
or_manifest_error (ok v) e = ok v
or_manifest_error (err x) e = err e

-- `digestPattern`
unfoldable pub is_digest_character : ℕ → Bool
is_digest_character c = leb b'0' c && leb c b'9' || leb b'a' c && leb c b'f'

unfoldable pub is_digest : Text → Bool
unfolding is_digest_character
is_digest text = length text == 64 && all is_digest_character text

-- `strings.ContainsAny` for a slash and a backslash; a name without them is its own `filepath.Base`,
-- unless it is empty.
unfoldable pub has_separator : Text → Bool
has_separator = any λ c. c == b'/' || c == b'\\'

abbrev pub windows : Text
windows = codes "windows-amd64"

abbrev pub linux : Text
linux = codes "linux-amd64"

unfoldable pub windows_file : Version → Text
windows_file latest = codes "spacechat-client-windows-amd64-" ++ string latest ++ codes ".exe"

unfoldable pub linux_file : Version → Text
linux_file latest = codes "spacechat-client-linux-amd64-" ++ string latest

-- One round of the loop over the expected files.
unfoldable pub check_artifact : Manifest → Text → Text → Result ManifestError (Unit {0})
check_artifact m platform expected = do
  artifact ← or_error (find platform m.artifacts) missing_artifact
  refuse
      (not (text_eq artifact.file expected)
        || text_eq artifact.file []
        || has_separator artifact.file)
      invalid_filename
  refuse (leb_ℤ artifact.size (pos 0) || ltb_ℤ (pos max_artifact_size) artifact.size) invalid_size
  refuse (not (is_digest artifact.sha256)) invalid_digest

-- `validate`. The loop over the expected files goes through a Go map, whose order is not fixed.
unfoldable pub validate : Manifest → Result ManifestError (Unit {0})
validate m = do
  refuse (not (eq_ℤ m.schema (pos 1))) unsupported_schema
  latest ← or_manifest_error (parse_version m.latest_version) invalid_latest
  minimum ← or_manifest_error (parse_version m.minimum_supported_version) invalid_minimum
  refuse (ltb_ℤ (pos 0) (compare_version minimum latest)) minimum_exceeds_latest
  refuse (not (valid_string m.release_notes) || ltb 4000 (length m.release_notes)) invalid_notes
  refuse (any is_control m.release_notes) control_in_notes
  refuse (not (length m.artifacts == 2)) wrong_count
  check_artifact m windows (windows_file latest)
  check_artifact m linux (linux_file latest)

-- `ed25519.Verify` and the decoder of JSON, which gives the first value and whether more follows it.
module _ (verify : List ℕ → List ℕ → List ℕ → Bool)
    (decode : List ℕ → Option (Manifest × Bool)) where
  -- `VerifyManifest`
  unfoldable pub verify_manifest : List ℕ → List ℕ → List ℕ → Result ManifestError Manifest
  verify_manifest raw signature key = do
    refuse (not (length key == 32)) invalid_key
    refuse (not (length signature == 64) || not (verify key raw signature)) invalid_signature
    (m, more) ← or_error (decode raw) invalid_json
    refuse more trailing_json
    validate m
    ok m

-- `Manifest.Artifact`
unfoldable pub artifact_for : Text → Text → Manifest → Result ManifestError Artifact
artifact_for goos goarch m =
    let key = goos ++ b'-' ∷ goarch in
    do
      artifact ← or_error (find key m.artifacts) unsupported_platform
      refuse (not (text_eq key windows) && not (text_eq key linux)) unsupported_platform
      ok artifact
