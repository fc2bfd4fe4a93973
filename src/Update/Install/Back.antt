-- ===== src/Update/Install/Back.antt =====
-- Going back to the version before.
use spacechat.Prelude.{
  ℕ, ◌≡◌, refl, sym, ap, ◌∙◌, inl, inr, Bool, true, false, not, Option, none, some, arith, Text,
  text_eq, text_eq_refl, if◌then◌else◌, if_intro, Bool-cases, Result, ok, err, subst,
}
use spacechat.Prelude.Int.{ℤ}
use spacechat.Prelude.TextMap.{find, find-remove}
use spacechat.Update.Version.{Version}
use spacechat.Update.Disk.{
  Disk, Node, LockFile, Site, UpdateError, read_current, write_current, pointer_to,
}
use spacechat.Update.Install.{install, Offer, Installed, Outside, same_version, target_name}
use spacechat.Update.Disk.Pointer.{read_really, read_current-pointer_to, read_current-Fits}
use spacechat.Update.Lock.{Rivals, acquire, release}
use spacechat.Update.Lock.Exclusive.{Beside, Taken, acquire-Taken, release-Beside}
use spacechat.Update.Install.Safe.{Safe}
use spacechat.Update.Install.Rollback.{restored, rollback_active, rollback_acquired, rollback}
use spacechat.Update.Install.Whole.{install-Safe}

-- Going back is done or refused.
abbrev pub RolledBack :
    Outside → Installed → Text → Disk → Disk × Result UpdateError (Unit {0}) → Type 0
RolledBack w result name before (after, err e) =
    (after.current ≡ before.current) × (after.versions ≡ before.versions)
RolledBack w result name before (after, ok u) =
    (result.shared ≡ false)
    × ((active : Version) × (read_current false before.current ≡ ok active)
        × (same_version active result.target ≡ true))
    × (after.current ≡ some (pointer_to result.previous))
    × (find result.entry after.versions
        ≡ (if w.fails Site.removes_target then find result.entry before.versions else none))
    × (find name after.versions ≡ find name before.versions)

module _ (w : Outside) (result : Installed) (name : Text)
    (apart : text_eq result.entry name ≡ false) (pid : ℤ) (inode now : ℕ) (rivals : Rivals) where
  abbrev Back : Disk → Disk × Result UpdateError (Unit {0}) → Type 0
  Back = RolledBack w result name

  restored-Back :
      (disk : Disk) (active : Version) (failed : Bool)
      → result.shared ≡ false
      → read_current false disk.current ≡ ok active
      → same_version active result.target ≡ true
      → Back disk
          (restored w pid inode now rivals result disk (write_current failed result.previous disk))
  unfolding restored write_current
  restored-Back disk active true own read same = (refl, refl)
  restored-Back disk active false own read same = elim (Bool-cases (w.fails Site.removes_target)) [
    | inl stays ↦ rw stays (own, (active, read, same), refl, refl, refl)
    | inr goes ↦ rw goes (
      own,
      (active, read, same),
      refl,
      find-remove result.entry result.entry disk.versions
          ∙ ap (λ b. if b then none else find result.entry disk.versions)
              (text_eq_refl result.entry),
      find-remove result.entry name disk.versions
          ∙ ap (λ b. if b then none else find name disk.versions) apart,
    )
  ]

  rollback_active-Back :
      (disk : Disk) (r : Result UpdateError Version)
      → result.shared ≡ false
      → ((v : Version) → r ≡ ok v → read_current false disk.current ≡ ok v)
      → Back disk (rollback_active w pid inode now rivals result disk r)
  unfolding rollback_active
  rollback_active-Back disk (err e) own read = (refl, refl)
  rollback_active-Back disk (ok active) own read =
      if_intro (Back disk) (not (same_version active result.target)) (λ _. (refl, refl))
        (λ same.
          restored-Back disk active (w.fails Site.writes_current) own (read active refl)
            (ground (arith, same)))

  from_Beside :
      (before disk : Disk) (x : Disk × Result UpdateError (Unit {0}))
      → Beside before disk
      → Back disk x
      → Back before x
  from_Beside before disk x b s =
      subst (λ v. Back (record before { versions = v }) x) b.1
        (subst (λ c. Back (record before { current = c; versions = disk.versions }) x) b.0 s)

  to_Beside :
      (before disk after : Disk) (r : Result UpdateError (Unit {0}))
      → Beside disk after
      → Back before (disk, r)
      → Back before (after, r)
  to_Beside before disk after r b s =
      subst (λ v. Back before (record after { versions = v }, r)) (sym b.1)
        (subst (λ c. Back before (record after { current = c; versions = disk.versions }, r))
          (sym b.0) s)

  rollback_acquired-Back :
      (before : Disk) (x : Disk × Result UpdateError ℕ)
      → result.shared ≡ false
      → Taken w.fails pid inode now rivals before x
      → Back before (rollback_acquired w pid inode now rivals result x)
  unfolding rollback_acquired
  rollback_acquired-Back before (disk, err e) own t = (t.0.0, t.0.1)
  rollback_acquired-Back before (disk, ok held) own t =
      let pointer = read_current (w.fails Site.reads_current) disk.current in
      let done = rollback_active w pid inode now rivals result disk pointer in
      from_Beside before disk ((release w.fails held done.0).0, done.1) t.0
        (to_Beside disk done.0 (release w.fails held done.0).0 done.1
          (release-Beside w.fails held done.0)
          (rollback_active-Back disk pointer own
            (λ v e. read_really (w.fails Site.reads_current) disk.current v e)))

  -- Going back changes nothing when it fails or is refused. When it is done, the installation was this process's own,
  -- its version was the current one, the pointer is at the version before, its directory is gone, if the system removes
  -- it, and any other is as it was.
  pub rollback-Back : (before : Disk) → Back before (rollback w pid inode now rivals result before)
  unfolding rollback
  rollback-Back before =
      if_intro (Back before) result.shared (λ _. (refl, refl))
        (λ own.
          rollback_acquired-Back before (acquire w.fails pid inode now rivals before) own
            (acquire-Taken w.fails pid inode now rivals before))

Safe-previous :
    (w : Outside) (offer : Offer) (name : Text) (before after : Disk) (r : Installed)
    → Safe w offer name before (after, ok r)
    → r.shared ≡ false
    → read_current false before.current ≡ ok r.previous
Safe-previous w offer name before after r s own = ground (arith, s.4, own)

-- If an installation of this process succeeded, and afterwards, at another time and with a lock of its own, going back,
-- then the pointer names again the version that it named at first, and the directory of any other version, but for one
-- with the name that the system chose for the staging directory, is as it was at first, whatever other processes did to
-- the lock in both and in between, and whatever else failed on the way.
pub rollback-install :
    (w back : Outside) (offer : Offer) (name : Text) (pid pid' : ℤ) (inode inode' now now' : ℕ)
    (rivals rivals' : Rivals) (later : Option Node) (before after last : Disk) (r : Installed)
    → text_eq (target_name offer) name ≡ false
    → text_eq w.staging_name name ≡ false
    → install w pid inode now rivals offer later before ≡ (after, ok r)
    → (lock : Option LockFile)
    → rollback back pid' inode' now' rivals' r (record after { lock = lock }) ≡ (last, ok tt)
    → (read_current false before.current ≡ ok r.previous)
      × (read_current false last.current ≡ ok r.previous)
      × (find name last.versions ≡ find name before.versions)
rollback-install w back offer name pid pid' inode inode' now now' rivals rivals' later before after
      last r apart aside done lock undone =
    let s =
      subst (Safe w offer name before) done
        (install-Safe w offer name pid inode now rivals later before apart aside) in
    let b = subst (RolledBack back r name (record after { lock = lock })) undone (
      rollback-Back back r name (subst (λ e. text_eq e name ≡ false) (sym s.1) apart) pid' inode'
        now' rivals' (record after { lock = lock })) in
    let first = Safe-previous w offer name before after r s b.0 in
    (
      first,
      ap (read_current false) b.2
          ∙ read_current-pointer_to r.previous
              (read_current-Fits false before.current r.previous first),
      b.4 ∙ s.3,
    )
