-- ===== src/Update/Manifest/Examples.antt =====
-- Examples of the laws on the manifest, with a toy signature.
use spacechat.Prelude.{
  ℕ, ◌≡◌, refl, List, [], ◌∷◌, Option, some, arith, Text, codes, text_eq, ok, Bool, true, false,
}
use spacechat.Prelude.Int.{pos}
use spacechat.Prelude.TextMap.{find}
use spacechat.Decimal.{print, print_fuel}
use spacechat.Unicode.{valid_string, is_control}
use spacechat.Update.Version.{Version, parse_version, string, compare_version}
use spacechat.Update.Version.RoundTrip.{parse_version-string}
use spacechat.Update.Manifest.{
  Manifest, windows, linux, windows_file, linux_file, is_digest, has_separator, check_artifact,
  validate, verify_manifest,
}
use spacechat.Update.Manifest.Verified.{Release, verify_manifest-Release}

abbrev version : Version
version = record { major = 1; minor = 2; patch = 3 }

abbrev digest : Text
digest = codes "0123456789abcdef0123456789abcdef0123456789abcdef0123456789abcdef"

abbrev manifest : Manifest
manifest = record {
  schema = pos 1;
  latest_version = string version;
  minimum_supported_version = string version;
  release_notes = codes "new";
  artifacts =
      (windows, record { file = windows_file version; size = pos 5; sha256 = digest })
      ∷ (linux, record { file = linux_file version; size = pos 5; sha256 = digest })
      ∷ [];
}

-- A signature is good when it is 64 bytes long.
abbrev toy_verify : List ℕ → List ℕ → List ℕ → Bool
toy_verify key raw signature = true

abbrev toy_decode : List ℕ → Option (Manifest × Bool)
toy_decode raw = some (manifest, false)

abbrev key : List ℕ
key = codes "0123456789abcdef0123456789abcdef"

version_parsed : parse_version (string version) ≡ ok version
version_parsed =
    parse_version-string version
      (record { major = omega arith; minor = omega arith; patch = omega arith })

notes_valid : valid_string (codes "new") ≡ true
unfolding valid_string
notes_valid = ground arith

manifest_valid : validate manifest ≡ ok tt
unfolding validate check_artifact is_digest has_separator compare_version find text_eq string
    windows_file linux_file print print_fuel is_control
manifest_valid = rw (version_parsed, notes_valid) refl

verified : verify_manifest toy_verify toy_decode [] digest key ≡ ok manifest
unfolding verify_manifest
verified = rw manifest_valid refl

verify_manifest-Release_example :
    (toy_verify key [] digest ≡ true) × (toy_decode [] ≡ some (manifest, false)) × Release manifest
verify_manifest-Release_example =
    verify_manifest-Release toy_verify toy_decode [] digest key manifest verified
