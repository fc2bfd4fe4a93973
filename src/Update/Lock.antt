-- ===== src/Update/Lock.antt =====
-- internal/update/lock.go: one update at a time.
pub mod Exclusive
use spacechat.Prelude.{
  ℕ, ◌+◌, ◌*◌, ◌==◌, Bool, true, false, ◌&&◌, ◌||◌, not, Option, none, some, ltb, if◌then◌else◌,
  Result, ok, err, ◌>>=◌, ◌>>◌, refuse, or_error,
}
use spacechat.Prelude.Int.{ℤ, pos, leb_ℤ}
use spacechat.Update.Disk.{
  Disk, LockFile, Site, UpdateError, locked, bad_lock, lock_changed, failed_call, makes_root,
  creates_lock, writes_lock, syncs_lock, cleans_lock, checks_lock, inspects_lock, reads_lock,
  inspects_again, opens_again, removes_stale, removes_lock,
}

-- `staleLockAfter`, ten minutes in nanoseconds.
abbrev pub stale_after : ℕ
stale_after = 600 * 1000000000

-- What other processes make of the path of the lock between two calls on it: before the first
-- `Lstat`, before the file is opened, before it is removed, before the second creation, before the
-- second inspection's `Lstat` and its opening, and before the file that was made is looked at or
-- removed.
pub record Rivals : Type 0 where
  pub before_stat : Option LockFile → Option LockFile
  pub before_open : Option LockFile → Option LockFile
  pub before_removal : Option LockFile → Option LockFile
  pub before_creation : Option LockFile → Option LockFile
  pub before_second_stat : Option LockFile → Option LockFile
  pub before_second_open : Option LockFile → Option LockFile
  pub before_check : Option LockFile → Option LockFile

abbrev pub at_path : Option LockFile → Disk → Disk
at_path file disk = record disk { lock = file }

-- The process, the file that it would make and the clock; a time of 0 is Go's zero time.
module _ (fails : Site → Bool) (pid : ℤ) (inode now : ℕ) (rivals : Rivals) where
  abbrev pub own_lock : LockFile
  own_lock = record { inode = inode; is_safe = true; metadata = some (pid, now) }

  -- The file after a write that failed.
  abbrev pub broken_lock : LockFile
  broken_lock = record { inode = inode; is_safe = true; metadata = none }

  -- `staleUpdateLock`, with what its two calls find at the path, and whether they fail on it.
  unfoldable pub is_stale :
      Bool → Bool → Option LockFile → Option LockFile → Result UpdateError Bool
  is_stale no_stat no_open seen opened = do
    refuse no_stat failed_call
    info ← or_error seen failed_call
    refuse (not info.is_safe) bad_lock
    refuse no_open failed_call
    file ← or_error opened failed_call
    (owner, created) ← or_error file.metadata bad_lock
    refuse (leb_ℤ owner (pos 0) || created == 0) bad_lock
    ok (ltb (created + stale_after) now)

  -- The removal of the own file after a call that failed, which may fail, too.
  unfoldable pub clean_up : LockFile → Disk → Disk
  clean_up file disk =
      at_path (if fails cleans_lock then rivals.before_check (some file) else none) disk

  unfoldable pub check_lock : Disk → Option LockFile → Disk × Result UpdateError ℕ
  check_lock disk none = (disk, err failed_call)
  check_lock disk (some file) =
      if fails checks_lock then (disk, err failed_call) else (disk, ok file.inode)

  -- The file is created, written, and looked at. `syncs_lock` is either of `Sync` and `Close`.
  unfoldable pub create_lock : Disk → Disk × Result UpdateError ℕ
  create_lock disk =
      if fails creates_lock
      then (disk, err failed_call)
      else if fails writes_lock
      then (clean_up broken_lock disk, err failed_call)
      else if fails syncs_lock
      then (clean_up own_lock disk, err failed_call)
      else let found = rivals.before_check (some own_lock) in check_lock (at_path found disk) found

  -- The second round, with what stands at the path.
  unfoldable pub attempt_again : Disk → Option LockFile → Disk × Result UpdateError ℕ
  attempt_again disk none = create_lock disk
  attempt_again disk (some file) =
      let seen = rivals.before_second_stat (some file) in
      let opened = rivals.before_second_open seen in
      (
        at_path opened disk,
        (do _ ← is_stale (fails inspects_again) (fails opens_again) seen opened; err locked),
      )

  -- `os.Remove` removes what stands at the path, whether or not it is the file that was inspected.
  unfoldable pub remove_stale : Disk → Option LockFile → Disk × Result UpdateError ℕ
  remove_stale disk none = (disk, err failed_call)
  remove_stale disk (some file) =
      if fails removes_stale
      then (disk, err failed_call)
      else let found = rivals.before_creation none in attempt_again (at_path found disk) found

  unfoldable pub after_inspection : Disk → Result UpdateError Bool → Disk × Result UpdateError ℕ
  after_inspection disk (err e) = (disk, err e)
  after_inspection disk (ok false) = (disk, err locked)
  after_inspection disk (ok true) =
      let found = rivals.before_removal disk.lock in remove_stale (at_path found disk) found

  unfoldable pub attempt : Disk → Option LockFile → Disk × Result UpdateError ℕ
  attempt disk none = create_lock disk
  attempt disk (some file) =
      let seen = rivals.before_stat (some file) in
      let opened = rivals.before_open seen in
      after_inspection (at_path opened disk)
        (is_stale (fails inspects_lock) (fails reads_lock) seen opened)

  -- `Acquire`, to the file that `Lstat` finds at the end.
  unfoldable pub acquire : Disk → Disk × Result UpdateError ℕ
  acquire disk = if fails makes_root then (disk, err failed_call) else attempt disk disk.lock

-- `Release`, for the lock of a file; `removes_lock` is one of its two calls.
module _ (fails : Site → Bool) (inode : ℕ) where
  unfoldable pub release_file : Disk → Option LockFile → Disk × Result UpdateError (Unit {0})
  release_file disk none = (disk, ok tt)
  release_file disk (some file) =
      if not (file.inode == inode)
      then (disk, err lock_changed)
      else if fails removes_lock
      then (disk, err failed_call)
      else (record disk { lock = none }, ok tt)

  unfoldable pub release : Disk → Disk × Result UpdateError (Unit {0})
  release disk = release_file disk disk.lock
