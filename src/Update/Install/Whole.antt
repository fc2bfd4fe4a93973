-- ===== src/Update/Install/Whole.antt =====
-- Installing with the lock taken and given back.
use spacechat.Prelude.{
  ℕ, ◌≡◌, refl, sym, ap, ◌∙◌, true, false, not, Option, arith, Text, text_eq, Result, ok, err,
  >>=-eq-ok, refuse, subst,
}
use spacechat.Prelude.Int.{ℤ}
use spacechat.Prelude.TextMap.{find}
use spacechat.Update.Version.{Version}
use spacechat.Update.Disk.{Disk, Node, Site, UpdateError, locked, read_current, unsupported_system}
use spacechat.Update.Install.{
  or_locked, completed_by_another, install_acquired, install, unlock, Offer, Installed, Outside,
  Attempt, same_version, is_supported, target_name, shared_target, install_held,
}
use spacechat.Update.Disk.Pointer.{read_really}
use spacechat.Update.Lock.{Rivals, acquire, release}
use spacechat.Update.Lock.Exclusive.{Beside, Taken, acquire-Taken, release-Beside}
use spacechat.Update.Install.Safe.{Safe}
use spacechat.Update.Install.Held.{install_held-Safe, shared_target-Safe}

module _ (w : Outside) (offer : Offer) (name : Text) where
  -- The lock and the temporary files are beside the point.
  from_Beside :
      (before disk : Disk) (x : Attempt)
      → Beside before disk
      → Safe w offer name disk x
      → Safe w offer name before x
  from_Beside before disk x b s =
      subst (λ v. Safe w offer name (record before { versions = v }) x) b.1
        (subst (λ c. Safe w offer name (record before { current = c; versions = disk.versions }) x)
          b.0 s)

  to_Beside :
      (before disk after : Disk) (r : Result UpdateError Installed)
      → Beside disk after
      → Safe w offer name before (disk, r)
      → Safe w offer name before (after, r)
  to_Beside before disk after r b s =
      subst (λ v. Safe w offer name before (record after { versions = v }, r)) (sym b.1)
        (subst
          (λ c.
            Safe w offer name before (record after { current = c; versions = disk.versions }, r))
          (sym b.0) s)

  or_locked-same :
      (r : Result UpdateError Version)
      → or_locked w offer r ≡ ok tt
      → (v : Version) × (r ≡ ok v) × (same_version v offer.latest ≡ true)
  or_locked-same (ok v) h = (v, refl, ground (arith, h))
  or_locked-same (err e) h = cc

  module _ (apart : text_eq (target_name offer) name ≡ false)
      (aside : text_eq w.staging_name name ≡ false) where
    completed-Safe :
        (later : Option Node) (disk : Disk) (r : Result UpdateError Installed)
        → completed_by_another w offer later disk ≡ r
        → Safe w offer name disk (disk, r)
    unfolding completed_by_another
    completed-Safe later disk (err e) h = (refl, refl)
    completed-Safe later disk (ok r) h =
        let pointer = read_current (w.fails Site.reads_current) disk.current in
        let first = >>=-eq-ok (or_locked w offer pointer) _ h in
        let known = >>=-eq-ok (refuse (not (is_supported w.goos)) unsupported_system) _ first.2 in
        let found = >>=-eq-ok (shared_target w offer disk) _ known.2 in
        let again =
          >>=-eq-ok (or_locked w offer (read_current (w.fails Site.reads_again) later)) _ found.2 in
        let v = or_locked-same pointer first.1 in
        shared_target-Safe w offer name disk apart aside v.0
          (read_really (w.fails Site.reads_current) disk.current v.0 v.1) v.2 (ok r)
          (found.1 ∙ again.2)

    module _ (pid : ℤ) (inode now : ℕ) (rivals : Rivals) (later : Option Node) (before : Disk) where
      unlock-Safe :
          (held : ℕ) (disk : Disk) (x : Attempt)
          → Safe w offer name disk x
          → Safe w offer name disk (unlock w pid inode now rivals held x)
      unfolding unlock
      unlock-Safe held disk (after, r) s =
          to_Beside disk after (release w.fails held after).0 r (release-Beside w.fails held after)
            s

      acquired-Safe :
          (x : Disk × Result UpdateError ℕ)
          → Taken w.fails pid inode now rivals before x
          → Safe w offer name before (install_acquired w pid inode now rivals offer later x)
      unfolding install_acquired
      acquired-Safe (disk, ok held) t =
          from_Beside before disk (unlock w pid inode now rivals held (install_held w offer disk))
            t.0
            (unlock-Safe held disk (install_held w offer disk)
              (install_held-Safe w offer name disk apart aside))
      acquired-Safe (disk, err locked) t =
          from_Beside before disk (disk, completed_by_another w offer later disk) t.0
            (completed-Safe later disk _ refl)
      acquired-Safe (disk, err e) t = (t.0.0, ap (find name) t.0.1)

-- An installation that fails, at whichever call, leaves the pointer to the current version. One that gives a result has
-- the client of the offered version in place, with the size and the digest that the manifest states; either it is in a
-- directory of its own and has passed its own check, the pointer was at the offer's current version, which the result
-- names for going back, and is at the new one now; or another process has set the pointer to the new one, which is left
-- alone, and the client may be found through a link. In all cases every other version's directory is as it was; but for
-- one with the name that the system chose for the staging directory.
pub install-Safe :
    (w : Outside) (offer : Offer) (name : Text) (pid : ℤ) (inode now : ℕ) (rivals : Rivals)
    (later : Option Node) (before : Disk)
    → text_eq (target_name offer) name ≡ false
    → text_eq w.staging_name name ≡ false
    → Safe w offer name before (install w pid inode now rivals offer later before)
unfolding install
install-Safe w offer name pid inode now rivals later before apart aside =
    acquired-Safe w offer name apart aside pid inode now rivals later before
      (acquire w.fails pid inode now rivals before)
      (acquire-Taken w.fails pid inode now rivals before)
