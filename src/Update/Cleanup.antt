-- ===== src/Update/Cleanup.antt =====
-- `Cleanup` of internal/update/install.go: which versions stay.
pub mod Found
pub mod Newest
use spacechat.Prelude.{
  ℕ, Bool, true, false, ◌&&◌, ◌||◌, not, List, [], ◌∷◌, Option, none, some, Text, if◌then◌else◌,
  Result, ok, err,
}
use spacechat.Prelude.Int.{pos, ltb_ℤ}
use spacechat.Update.Version.{Version, VersionError, parse_version, compare_version}
use spacechat.Update.Disk.{Disk, Node, Entry, folder, linked, not_folder, UpdateError, failed_call}
use spacechat.Update.Install.{same_version}

-- What comes of `RemoveAll`: a refused permission is passed over.
pub data Removal : Type 0 where
  removed denied broken : Removal

-- The version that an entry is of.
abbrev pub or_none : Result VersionError Version → Option Version
or_none (ok v) = some v
or_none (err e) = none

unfoldable pub version_of : Text × Entry → Option Version
version_of (name, folder file) = or_none (parse_version name)
version_of (name, linked file) = none
version_of (name, not_folder) = none

abbrev pub is_newer : Version → Option Version → Bool
is_newer v none = true
is_newer v (some p) = ltb_ℤ (pos 0) (compare_version v p)

-- One round of the first loop.
unfoldable pub newer : Version → Option Version → Option Version → Option Version
newer current previous none = previous
newer current previous (some v) =
    if same_version v current then previous else if is_newer v previous then some v else previous

-- The first loop.
unfoldable pub newest_other : Version → Option Version → List (Text × Entry) → Option Version
newest_other current previous [] = previous
newest_other current previous (entry ∷ entries) =
    newest_other current (newer current previous (version_of entry)) entries

abbrev pub is_version : Version → Option Version → Bool
is_version v none = false
is_version v (some p) = same_version v p

unfoldable pub keeps : Version → Option Version → Option Version → Bool
keeps current previous none = false
keeps current previous (some v) = same_version v current || is_version v previous

-- One round of a loop that removes, with what the rest of it would give.
unfoldable pub remove_entry :
    {A : Type 0}
    → Text × A
    → List (Text × A)
    → List (Text × A) × Bool
    → Removal
    → List (Text × A) × Bool
remove_entry e es rest removed = rest
remove_entry e es rest denied = (e ∷ rest.0, rest.1)
remove_entry e es rest broken = (e ∷ es, false)

-- The loop: the entries afterwards, and whether it came to its end.
unfoldable pub remove_entries :
    {A : Type 0} → (Text → Removal) → (Text × A → Bool) → List (Text × A) → List (Text × A) × Bool
remove_entries removal stays [] = ([], true)
remove_entries removal stays (e ∷ es) =
    let rest = remove_entries removal stays es in
    if stays e then (e ∷ rest.0, rest.1) else remove_entry e es rest (removal e.0)

-- `cleanDirectoryContents`, of the temporary files.
unfoldable pub clean_temp : (Text → Removal) → Disk → Disk × Bool
clean_temp removal disk =
    let cleaned = remove_entries removal (λ (e : Text × Node). false) disk.temp in
    (record disk { temp = cleaned.0 }, cleaned.1)

unfoldable pub clean_versions : (Text → Removal) → Version → Disk → Disk × Bool
clean_versions removal current disk =
    let previous = newest_other current none disk.versions in
    let cleaned =
      remove_entries removal (λ e. keeps current previous (version_of e)) disk.versions in
    (record disk { versions = cleaned.0 }, cleaned.1)

unfoldable pub cleaned_temp : (Text → Removal) → Version → Disk × Bool → Disk × Bool
cleaned_temp removal current (disk, false) = (disk, false)
cleaned_temp removal current (disk, true) = clean_versions removal current disk

-- `Cleanup`, and whether it ends without an error. A directory that is not there has no entries. Reading a directory
-- does not fail here.
unfoldable pub cleanup : (Text → Removal) → Version → Disk → Disk × Bool
cleanup removal current disk = cleaned_temp removal current (clean_temp removal disk)
