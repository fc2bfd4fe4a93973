-- ===== src/Update/Install.antt =====
-- internal/update/install.go: `Install`.
pub mod Safe
pub mod Held
pub mod Whole
pub mod Rollback
pub mod Back
use spacechat.Prelude.{
  ℕ, ◌==◌, Bool, true, false, ◌&&◌, ◌||◌, not, List, [], ◌∷◌, ◌++◌, Option, none, some, Text, codes,
  text_eq, if◌then◌else◌, Result, ok, err, ◌>>=◌, ◌>>◌, refuse, or_error,
}
use spacechat.Prelude.Int.{ℤ}
use spacechat.Prelude.TextMap.{find, put, remove}
use spacechat.Update.Version.{Version, string}
use spacechat.Update.Manifest.{Artifact}
use spacechat.Update.Disk
use spacechat.Update.Disk.{
  Disk, Node, regular, special, Entry, folder, linked, not_folder, LockFile, Site, UpdateError,
  Response, read_current, write_current, verify_installed, download, unsupported_system,
  version_changed, unsafe_target, failed_self_check, failed_call, refused_shared, refused_version,
}
use spacechat.Update.Lock.{Rivals, acquire, release}

-- What `Install` reads of a `Check`.
pub record Offer : Type 0 where
  pub artifact : Artifact
  pub current : Version
  pub latest : Version

-- `InstallResult`; `entry` is the name of the path's directory in that of the versions.
pub record Installed : Type 0 where
  pub entry : Text
  pub previous : Version
  pub target : Version
  pub shared : Bool

-- `==` on versions
abbrev pub same_version : Version → Version → Bool
same_version v w = v.major == w.major && v.minor == w.minor && v.patch == w.patch

-- The operating systems that `ClientPath` knows.
abbrev pub is_supported : Text → Bool
is_supported goos = text_eq goos (codes "windows") || text_eq goos (codes "linux")

-- What the environment gives: a digest, the calls that fail, the operating system's name, whether a client's file
-- passes its own check, the server's answer, and the names that `CreateTemp` and `MkdirTemp` choose.
pub record Outside : Type 0 where
  pub sha256 : List ℕ → Text
  pub fails : Site → Bool
  pub goos : Text
  pub self_check : List ℕ → Bool
  pub answer : Option Response
  pub temp_name : Text
  pub staging_name : Text

abbrev pub passes_self_check : Outside → Option Node → Bool
passes_self_check w (some (regular bytes)) = w.self_check bytes
passes_self_check w file = false

abbrev pub is_ok : {A : Type 0} → Result UpdateError A → Bool
is_ok (ok a) = true
is_ok (err e) = false

abbrev pub Attempt : Type 0
Attempt = Disk × Result UpdateError Installed

-- What a path through the entry leads to: a link is followed.
abbrev pub client_file : Option Entry → Option Node
client_file (some (folder file)) = file
client_file (some (linked file)) = file
client_file entry = none

-- The name of the target's directory.
abbrev pub target_name : Offer → Text
target_name offer = string offer.latest

module _ (w : Outside) (offer : Offer) where
  -- The deferred removals of the download and of the staging directory.
  unfoldable pub drop_temp : List ℕ → Disk → Disk
  drop_temp bytes disk =
      if w.fails Site.cleans_temp
      then record disk { temp = put w.temp_name (regular bytes) disk.temp }
      else disk

  unfoldable pub drop_staging : Entry → Disk → Disk
  drop_staging entry disk =
      if w.fails Site.cleans_staging
      then record disk { versions = put w.staging_name entry disk.versions }
      else disk

  unfoldable pub activated : Version → Disk → Result UpdateError Disk → Disk → Attempt
  activated active disk (ok after) undone = (
    after,
    ok (record {
      entry = target_name offer;
      previous = active;
      target = offer.latest;
      shared = false;
    }),
  )
  activated active disk (err e) undone = (undone, err e)

  -- From the rename of the staging directory on.
  unfoldable pub promote : Version → List ℕ → Disk → Attempt
  promote active bytes disk =
      let promoted = record disk {
        versions = put (target_name offer) (folder (some (regular bytes))) disk.versions;
      } in
      let undone = if w.fails Site.cleans_target then promoted else disk in
      activated active promoted (write_current (w.fails Site.writes_current) offer.latest promoted)
        undone

  -- From the staging directory on.
  unfoldable pub stage : Version → List ℕ → Disk → Attempt
  stage active bytes disk =
      let staged = drop_staging (folder (some (regular bytes))) disk in
      if w.fails Site.makes_staging
      then (drop_temp bytes disk, err failed_call)
      else if w.fails Site.moves_file
      then (drop_staging (folder none) (drop_temp bytes disk), err failed_call)
      else if text_eq w.goos (codes "linux") && w.fails Site.changes_mode
      then (staged, err failed_call)
      else if not (w.self_check bytes)
      then (staged, err failed_self_check)
      else if w.fails Site.moves_staging
      then (staged, err failed_call)
      else promote active bytes disk

  unfoldable pub downloaded : Version → Disk → Result UpdateError (List ℕ) → Attempt
  downloaded active disk (err e) = (disk, err e)
  downloaded active disk (ok bytes) = stage active bytes disk

  -- From the directories on.
  unfoldable pub fetch_target : Version → Disk → Attempt
  fetch_target active disk =
      if w.fails Site.makes_directories || w.fails Site.creates_temp || w.fails Site.closes_temp
      then (disk, err failed_call)
      else if w.fails Site.removes_temp
      then (record disk { temp = put w.temp_name (regular []) disk.temp }, err failed_call)
      else downloaded active disk (download w.sha256 w.fails w.answer offer.artifact)

  unfoldable pub replace_target : Version → Disk → Attempt
  replace_target active disk =
      if w.fails Site.removes_target
      then (disk, err failed_call)
      else fetch_target active (record disk { versions = remove (target_name offer) disk.versions })

  -- What is there of the target's directory.
  unfoldable pub install_target : Version → Disk → Option Entry → Attempt
  install_target active disk none = fetch_target active disk
  install_target active disk (some not_folder) = (disk, err unsafe_target)
  install_target active disk (some (linked file)) = (disk, err unsafe_target)
  install_target active disk (some (folder node)) =
      if is_ok (verify_installed w.sha256 (w.fails Site.opens_installed) node offer.artifact)
        && passes_self_check w node
      then activated active disk (write_current (w.fails Site.writes_current) offer.latest disk)
          disk
      else replace_target active disk

  abbrev pub shared_result : Installed
  shared_result = record {
    entry = target_name offer;
    previous = offer.current;
    target = offer.latest;
    shared = true;
  }

  unfoldable pub shared_target : Disk → Result UpdateError Installed
  shared_target disk = do
    verify_installed w.sha256 (w.fails Site.opens_installed)
        (client_file (find (target_name offer) disk.versions)) offer.artifact
    ok shared_result

  unfoldable pub install_active : Disk → Result UpdateError Version → Attempt
  install_active disk (err e) = (disk, err e)
  install_active disk (ok active) =
      if not (is_supported w.goos)
      then (disk, err unsupported_system)
      else if same_version active offer.latest
      then (disk, shared_target disk)
      else if not (same_version active offer.current)
      then (disk, err version_changed)
      else if w.fails Site.inspects_target
      then (disk, err failed_call)
      else install_target active disk (find (target_name offer) disk.versions)

  -- `Install` with the lock held.
  unfoldable pub install_held : Disk → Attempt
  install_held disk = install_active disk (read_current (w.fails Site.reads_current) disk.current)

  abbrev pub or_locked : Result UpdateError Version → Result UpdateError (Unit {0})
  or_locked (ok v) = refuse (not (same_version v offer.latest)) Disk.locked
  or_locked (err e) = err Disk.locked

  -- `completedByAnother`; the pointer is read twice, and may have changed in between.
  unfoldable pub completed_by_another : Option Node → Disk → Result UpdateError Installed
  completed_by_another later disk = do
    or_locked (read_current (w.fails Site.reads_current) disk.current)
    refuse (not (is_supported w.goos)) unsupported_system
    result ← shared_target disk
    or_locked (read_current (w.fails Site.reads_again) later)
    ok result

module _ (w : Outside) (pid : ℤ) (inode now : ℕ) (rivals : Rivals) where
  unfoldable pub unlock : ℕ → Attempt → Attempt
  unlock held (disk, result) = ((release w.fails held disk).0, result)

  unfoldable pub install_acquired : Offer → Option Node → Disk × Result UpdateError ℕ → Attempt
  install_acquired offer later (disk, ok held) = unlock held (install_held w offer disk)
  install_acquired offer later (disk, err Disk.locked) =
      (disk, completed_by_another w offer later disk)
  install_acquired offer later (disk, err e) = (disk, err e)

  -- `Install`
  unfoldable pub install : Offer → Option Node → Disk → Attempt
  install offer later disk =
      install_acquired offer later (acquire w.fails pid inode now rivals disk)
