-- ===== src/Update/Disk.antt =====
-- The files that an update works on: `ReadCurrent` and `WriteCurrent` of internal/update/layout.go,
-- `verifyInstalledArtifact` of install.go and `Download` of remote.go. A call of the operating system that fails
-- changes nothing, but for a write to the lock; which calls fail is a parameter. Paths are those of the layout, by the
-- names in them.
pub mod Pointer
use spacechat.Prelude.{
  ℕ, ◌+◌, ◌==◌, Bool, true, false, ◌&&◌, ◌||◌, not, List, [], ◌∷◌, ◌++◌, Option, none, some, Text,
  text_eq, ltb, if◌then◌else◌, length, take, any, Result, ok, err, ◌>>=◌, ◌>>◌, refuse, or_error,
}
use spacechat.Prelude.Int.{ℤ, pos, negsuc, ltb_ℤ, leb_ℤ, eq_ℤ}
use spacechat.Update.Version.{Version, VersionError, parse_version, string}
use spacechat.Update.Manifest.{Artifact, max_artifact_size, is_digest, has_separator}

pub data UpdateError : Type 0 where
  locked bad_lock lock_changed : UpdateError
  bad_pointer many_lines : UpdateError
  bad_version : VersionError → UpdateError
  unsupported_system version_changed unsafe_target bad_installed : UpdateError
  bad_artifact no_response bad_status bad_length bad_download : UpdateError
  failed_self_check failed_call : UpdateError
  refused_shared refused_version : UpdateError

-- A file's bytes, or what is not a regular file.
pub data Node : Type 0 where
  regular : List ℕ → Node
  special : Node

-- An entry of the directory of versions: a directory with the client's file, a symbolic link to such a
-- directory, or something else.
pub data Entry : Type 0 where
  folder : Option Node → Entry
  linked : Option Node → Entry
  not_folder : Entry

-- A file at the path of the lock: which it is, whether it is regular and small enough, and what the decoder
-- reads of it.
pub record LockFile : Type 0 where
  pub inode : ℕ
  pub is_safe : Bool
  pub metadata : Option (ℤ × ℕ)

pub record Disk : Type 0 where
  pub lock : Option LockFile
  pub current : Option Node
  pub versions : List (Text × Entry)
  pub temp : List (Text × Node)

-- The calls of the operating system that may fail.
pub data Site : Type 0 where
  makes_root creates_lock writes_lock syncs_lock cleans_lock checks_lock : Site
  inspects_lock reads_lock inspects_again opens_again removes_stale removes_lock : Site
  reads_current reads_again writes_current opens_installed : Site
  inspects_target removes_target makes_directories creates_temp closes_temp removes_temp : Site
  opens_download syncs_download makes_staging moves_file changes_mode moves_staging : Site
  cleans_temp cleans_staging cleans_target : Site

-- `strings.TrimSuffix` for a character.
unfoldable pub trim_suffix : ℕ → Text → Text
trim_suffix c [] = []
trim_suffix c (x ∷ []) = if x == c then [] else x ∷ []
trim_suffix c (x ∷ y ∷ s) = x ∷ trim_suffix c (y ∷ s)

abbrev pub or_bad_version : Result VersionError Version → Result UpdateError Version
or_bad_version (ok v) = ok v
or_bad_version (err e) = err (bad_version e)

unfoldable pub read_pointer : List ℕ → Result UpdateError Version
read_pointer bytes =
    let text = trim_suffix b'\r' (trim_suffix b'\n' bytes) in
    do
      refuse (ltb 64 (length bytes)) bad_pointer
      refuse (any (λ c. c == b'\r' || c == b'\n') text) many_lines
      or_bad_version (parse_version text)

-- `ReadCurrent`
unfoldable pub read_current : Bool → Option Node → Result UpdateError Version
read_current true file = err failed_call
read_current false none = err failed_call
read_current false (some special) = err bad_pointer
read_current false (some (regular bytes)) = read_pointer bytes

abbrev pub pointer_to : Version → Node
pointer_to version = regular (string version ++ b'\n' ∷ [])

-- `WriteCurrent`: the file is replaced as a whole.
unfoldable pub write_current : Bool → Version → Disk → Result UpdateError Disk
write_current true version disk = err failed_call
write_current false version disk = ok (record disk { current = some (pointer_to version) })

-- A digest, in hexadecimal.
module _ (sha256 : List ℕ → Text) where
  unfoldable pub verify_bytes : List ℕ → Artifact → Result UpdateError (Unit {0})
  verify_bytes bytes artifact = do
    refuse (not (eq_ℤ (pos (length bytes)) artifact.size)) bad_installed
    refuse (not (text_eq (sha256 bytes) artifact.sha256)) bad_installed

  -- `verifyInstalledArtifact`
  unfoldable pub verify_installed : Bool → Option Node → Artifact → Result UpdateError (Unit {0})
  verify_installed true file artifact = err failed_call
  verify_installed false none artifact = err failed_call
  verify_installed false (some special) artifact = err bad_installed
  verify_installed false (some (regular bytes)) artifact = verify_bytes bytes artifact

-- What a server answers; `body` is `none` if reading it fails.
pub record Response : Type 0 where
  pub status_code : ℕ
  pub content_length : ℤ
  pub body : Option (List ℕ)

abbrev pub nat_of : ℤ → ℕ
nat_of (pos n) = n
nat_of (negsuc n) = 0

module _ (sha256 : List ℕ → Text) (fails : Site → Bool) where
  -- `Download`, to the bytes of the file that it leaves; it leaves none if it fails. `answer` is the server's.
  unfoldable pub download : Option Response → Artifact → Result UpdateError (List ℕ)
  download answer artifact = do
    refuse
        (leb_ℤ artifact.size (pos 0)
          || ltb_ℤ (pos max_artifact_size) artifact.size
          || not (is_digest artifact.sha256)
          || text_eq artifact.file []
          || has_separator artifact.file)
        bad_artifact
    response ← or_error answer no_response
    refuse (not (response.status_code == 200)) bad_status
    refuse
        (leb_ℤ (pos 0) response.content_length && not (eq_ℤ response.content_length artifact.size))
        bad_length
    refuse (fails opens_download) failed_call
    body ← or_error response.body failed_call
    let written = take (nat_of artifact.size + 1) body
    refuse (not (eq_ℤ (pos (length written)) artifact.size)) bad_download
    refuse (not (text_eq (sha256 written) artifact.sha256)) bad_download
    refuse (fails syncs_download) failed_call
    ok written
