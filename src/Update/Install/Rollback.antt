-- ===== src/Update/Install/Rollback.antt =====
-- `Rollback` of internal/update/install.go.
use spacechat.Prelude.{ℕ, not, if◌then◌else◌, Result, ok, err}
use spacechat.Prelude.Int.{ℤ}
use spacechat.Prelude.TextMap.{remove}
use spacechat.Update.Version.{Version}
use spacechat.Update.Disk.{
  Disk, Site, UpdateError, read_current, write_current, refused_shared, refused_version,
}
use spacechat.Update.Lock.{Rivals, acquire, release}
use spacechat.Update.Install.{Installed, Outside, same_version}

module _ (w : Outside) (pid : ℤ) (inode now : ℕ) (rivals : Rivals) where
  unfoldable pub restored :
      Installed → Disk → Result UpdateError Disk → Disk × Result UpdateError (Unit {0})
  restored result disk (err e) = (disk, err e)
  restored result disk (ok after) = (
    if w.fails Site.removes_target
        then after
        else record after { versions = remove result.entry after.versions },
    ok tt,
  )

  unfoldable pub rollback_active :
      Installed → Disk → Result UpdateError Version → Disk × Result UpdateError (Unit {0})
  rollback_active result disk (err e) = (disk, err e)
  rollback_active result disk (ok active) =
      if not (same_version active result.target)
      then (disk, err refused_version)
      else restored result disk (write_current (w.fails Site.writes_current) result.previous disk)

  unfoldable pub rollback_acquired :
      Installed → Disk × Result UpdateError ℕ → Disk × Result UpdateError (Unit {0})
  rollback_acquired result (disk, err e) = (disk, err e)
  rollback_acquired result (disk, ok held) =
      let done =
        rollback_active result disk (read_current (w.fails Site.reads_current) disk.current) in
      ((release w.fails held done.0).0, done.1)

  -- `Rollback`
  unfoldable pub rollback : Installed → Disk → Disk × Result UpdateError (Unit {0})
  rollback result disk =
      if result.shared
      then (disk, err refused_shared)
      else rollback_acquired result (acquire w.fails pid inode now rivals disk)
