-- ===== src/Update/Lock/Exclusive.antt =====
-- Who gets the lock, and what taking and giving it back leave alone.
use spacechat.Prelude.{
  subst, sym, ap, ℕ, ◌+◌, ◌==◌, ◌≡◌, ◌<◌, refl, ◌⊎◌, inl, inr, Bool, true, false, not, Option, none,
  some, arith, if_intro, Option-cases, Result, ok, err, ◌>>=◌,
}
use spacechat.Prelude.Int.{ℤ, pos, ltb_ℤ}
use spacechat.Update.Disk.{
  Disk, LockFile, Site, UpdateError, locked, failed_call, makes_root, creates_lock, writes_lock,
  syncs_lock, checks_lock, inspects_lock, reads_lock, removes_stale, removes_lock,
}
use spacechat.Update.Lock.{
  Rivals, at_path, stale_after, own_lock, is_stale, clean_up, check_lock, create_lock,
  attempt_again, remove_stale, after_inspection, attempt, acquire, release_file, release,
}

-- Only the lock's file differs.
abbrev pub Beside : Disk → Disk → Type 0
Beside before after =
    (after.current ≡ before.current)
    × (after.versions ≡ before.versions)
    × (after.temp ≡ before.temp)

module _ (fails : Site → Bool) (pid : ℤ) (inode now : ℕ) (rivals : Rivals) (before : Disk) where
  -- What was inspected was regular and small, and what was read of it then is of a process that, by the
  -- clock, wrote it more than ten minutes ago.
  abbrev pub Stale : Type 0
  Stale =
      (seen : LockFile) × (opened : LockFile) × (owner : ℤ) × (created : ℕ) × (rivals.before_stat
          before.lock
        ≡ some seen)
      × (seen.is_safe ≡ true)
      × (rivals.before_open (some seen) ≡ some opened)
      × (opened.metadata ≡ some (owner, created))
      × (ltb_ℤ (pos 0) owner ≡ true)
      × (created + stale_after < now)

  -- No file was at the path, or a stale one was inspected and none was there when the own was made.
  abbrev pub Free : Type 0
  Free = (before.lock ≡ none) ⊎ (Stale × (rivals.before_creation none ≡ none))

  -- The call has not touched the path.
  abbrev pub Spared : Disk → Type 0
  Spared after =
      (after.lock ≡ before.lock)
      ⊎ (after.lock ≡ rivals.before_open (rivals.before_stat before.lock))

  abbrev pub Taken : Disk × Result UpdateError ℕ → Type 0
  Taken (after, ok held) =
      Beside before after
      × Free
      × (file : LockFile) × (after.lock ≡ some file)
      × (file.inode ≡ held)
      × (rivals.before_check (some (own_lock fails pid inode now rivals)) ≡ some file)
  Taken (after, err e) = Beside before after × ((before.lock ≡ none) ⊎ Stale ⊎ Spared after)

  abbrev Touched : Type 0
  Touched = (before.lock ≡ none) ⊎ Stale

  failed : (disk : Disk) (e : UpdateError) → Beside before disk → Touched → Taken (disk, err e)
  failed disk e b (inl missing) = (b, inl missing)
  failed disk e b (inr stale) = (b, inr (inl stale))

  touched : Free → Touched
  touched (inl missing) = inl missing
  touched (inr (stale, still)) = inr stale

  check_lock-Taken :
      (disk : Disk) (o : Option LockFile)
      → Beside before disk
      → Free
      → disk.lock ≡ o
      → rivals.before_check (some (own_lock fails pid inode now rivals)) ≡ o
      → Taken (check_lock fails pid inode now rivals disk o)
  unfolding check_lock
  check_lock-Taken disk none b f l r = failed disk failed_call b (touched f)
  check_lock-Taken disk (some file) b f l r =
      if_intro Taken (fails checks_lock) {x = (disk, err failed_call)} {y = (disk, ok file.inode)}
        (λ _. failed disk failed_call b (touched f)) (λ _. (b, f, file, l, refl, r))

  create_lock-Taken :
      (disk : Disk)
      → Beside before disk
      → Free
      → Taken (create_lock fails pid inode now rivals disk)
  unfolding create_lock clean_up
  create_lock-Taken disk b f =
      let own = own_lock fails pid inode now rivals in
      let found = rivals.before_check (some own) in
      let stop : (d : Disk) → Beside before d → Taken (d, err failed_call) =
        λ d c. failed d failed_call c (touched f) in
      if_intro Taken (fails creates_lock) (λ _. stop disk b)
        (λ _.
          if_intro Taken (fails writes_lock) (λ _. stop _ b)
            (λ _.
              if_intro Taken (fails syncs_lock)
                {y = check_lock fails pid inode now rivals (at_path found disk) found}
                (λ _. stop _ b) (λ _. check_lock-Taken (at_path found disk) found b f refl refl)))

  never-ok :
      {A : Type 0} (r : Result UpdateError A) (disk : Disk)
      → Beside before disk
      → Stale
      → Taken (disk, (do _ ← r; err locked))
  never-ok (ok a) disk b s = failed disk locked b (inr s)
  never-ok (err e) disk b s = failed disk e b (inr s)

  attempt_again-Taken :
      (disk : Disk) (o : Option LockFile)
      → Beside before disk
      → Stale
      → rivals.before_creation none ≡ o
      → Taken (attempt_again fails pid inode now rivals disk o)
  unfolding attempt_again
  attempt_again-Taken disk none b s e = create_lock-Taken disk b (inr (s, e))
  attempt_again-Taken disk (some other) b s e =
      never-ok (is_stale fails pid inode now rivals _ _ _ _) _ b s

  remove_stale-Taken :
      (disk : Disk) (o : Option LockFile)
      → Beside before disk
      → Stale
      → Taken (remove_stale fails pid inode now rivals disk o)
  unfolding remove_stale
  remove_stale-Taken disk none b s = failed disk failed_call b (inr s)
  remove_stale-Taken disk (some file) b s =
      let found = rivals.before_creation none in
      if_intro Taken (fails removes_stale)
        {y = attempt_again fails pid inode now rivals (at_path found disk) found}
        (λ _. failed disk failed_call b (inr s))
        (λ _. attempt_again-Taken (at_path found disk) found b s refl)

  -- What an inspection that finds a stale lock has seen.
  is_stale-Stale :
      (no_stat no_open : Bool)
      → is_stale fails pid inode now rivals no_stat no_open
          (rivals.before_stat before.lock)
          (rivals.before_open (rivals.before_stat before.lock))
        ≡ ok true
      → Stale
  unfolding is_stale
  is_stale-Stale no_stat no_open h = elim (Option-cases (rivals.before_stat before.lock)) [
    | inl missing ↦ absurd (ground (arith, h, missing))
    | inr (seen, e) ↦ (elim (Option-cases (rivals.before_open (some seen))) [
      | inl missing ↦ absurd (ground (arith, h, e, missing))
      | inr (opened, f) ↦ (elim (Option-cases opened.metadata) [
        | inl missing ↦ absurd (ground (arith, h, e, f, missing))
        | inr ((owner, created), g) ↦ (
          seen,
          opened,
          owner,
          created,
          e,
          ground (arith, h, e),
          f,
          g,
          ground (arith, h, e, f, g),
          ground (arith, h, e, f, g),
        )
      ])
    ])
  ]

  after_inspection-Taken :
      (file : LockFile) (r : Result UpdateError Bool)
      → before.lock ≡ some file
      → (r ≡ ok true → Stale)
      → Taken (
          after_inspection fails pid inode now rivals
            (at_path (rivals.before_open (rivals.before_stat (some file))) before)
            r)
  unfolding after_inspection
  after_inspection-Taken file (err e) l s = (
    (refl, refl, refl),
    inr (inr (inr (ap (λ o. rivals.before_open (rivals.before_stat o)) (sym l)))),
  )
  after_inspection-Taken file (ok false) l s = (
    (refl, refl, refl),
    inr (inr (inr (ap (λ o. rivals.before_open (rivals.before_stat o)) (sym l)))),
  )
  after_inspection-Taken file (ok true) l s = remove_stale-Taken _ _ (refl, refl, refl) (s refl)

  attempt-Taken :
      (o : Option LockFile) → before.lock ≡ o → Taken (attempt fails pid inode now rivals before o)
  unfolding attempt
  attempt-Taken none l = create_lock-Taken before (refl, refl, refl) (inl l)
  attempt-Taken (some file) l = after_inspection-Taken file _ l (λ e.
      is_stale-Stale (fails inspects_lock) (fails reads_lock) (
        subst
          (λ o.
            is_stale fails pid inode now rivals (fails inspects_lock) (fails reads_lock)
              (rivals.before_stat o) (rivals.before_open (rivals.before_stat o))
            ≡ ok true)
          (sym l) e))

-- Whatever other processes make of the lock's path between the calls, and whichever calls fail, nothing but the lock's
-- file changes. The lock is got only if no file was at the path; or if the file inspected was regular and small, what
-- was then opened names a process and a time more than ten minutes ago, and no file was there when the own one was
-- made. The lock got is the file at the path then, the own one or what others put in its place. When it is not got, the
-- path is as others left it, unless no file was there or a stale one was inspected. This does not say that a fresh file
-- survives which another process puts in the place of the inspected one before the removal.
pub acquire-Taken :
    (fails : Site → Bool) (pid : ℤ) (inode now : ℕ) (rivals : Rivals) (disk : Disk)
    → Taken fails pid inode now rivals disk (acquire fails pid inode now rivals disk)
unfolding acquire
acquire-Taken fails pid inode now rivals disk =
    if_intro (Taken fails pid inode now rivals disk) (fails makes_root)
      {y = attempt fails pid inode now rivals disk disk.lock}
      (λ _. ((refl, refl, refl), inr (inr (inl refl))))
      (λ _. attempt-Taken fails pid inode now rivals disk disk.lock refl)

release_file-Beside :
    (fails : Site → Bool) (inode : ℕ) (disk : Disk) (o : Option LockFile)
    → Beside disk (release_file fails inode disk o).0
unfolding release_file
release_file-Beside fails inode disk none = (refl, refl, refl)
release_file-Beside fails inode disk (some file) =
    let P : Disk × Result UpdateError (Unit {0}) → Type 0 = λ p. Beside disk p.0 in
    if_intro P (not (file.inode == inode)) (λ _. (refl, refl, refl))
      (λ _. if_intro P (fails removes_lock) (λ _. (refl, refl, refl)) (λ _. (refl, refl, refl)))

pub release-Beside :
    (fails : Site → Bool) (inode : ℕ) (disk : Disk) → Beside disk (release fails inode disk).0
unfolding release
release-Beside fails inode disk = release_file-Beside fails inode disk disk.lock
