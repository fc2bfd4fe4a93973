-- ===== src/Update/Install/Held.antt =====
-- An installation with the lock held.
use spacechat.Prelude.{
  ℕ, inl, inr, ◌≡◌, refl, ap, ◌∙◌, Bool, true, false, ◌&&◌, ◌||◌, not, List, Option, none, some,
  arith, Text, codes, text_eq, text_eq_refl, if◌then◌else◌, if_intro, Result, ok, err, >>=-eq-ok,
  ok_inj, subst,
}
use spacechat.Prelude.TextMap.{find, put, remove, find-put, find-remove}
use spacechat.Update.Version.{Version}
use spacechat.Update.Disk.{
  Disk, Node, regular, Entry, folder, linked, not_folder, Site, UpdateError, read_current,
  write_current, verify_bytes, verify_installed, download, failed_call, failed_self_check,
  version_changed,
}
use spacechat.Update.Install.{
  Offer, Installed, Outside, Attempt, same_version, passes_self_check, is_ok, is_supported,
  target_name, drop_temp, drop_staging, activated, promote, stage, downloaded, fetch_target,
  replace_target, install_target, client_file, shared_target, install_active, install_held,
}
use spacechat.Update.Install.Safe.{
  Aside, Genuine, Safe, verify_installed-regular, is_ok-ok, download-genuine,
}

module _ (w : Outside) (offer : Offer) (name : Text) (before : Disk)
    (other_target : text_eq (target_name offer) name ≡ false)
    (other_staging : text_eq w.staging_name name ≡ false) where
  -- The pointer and the directory of the name are as they were.
  abbrev Same : Disk → Type 0
  Same after = (after.current ≡ before.current) × Aside w offer name before after

  drop_temp-Same : (bytes : List ℕ) (disk : Disk) → Same disk → Same (drop_temp w offer bytes disk)
  unfolding drop_temp
  drop_temp-Same bytes disk s = if_intro Same (w.fails Site.cleans_temp) (λ _. s) (λ _. s)

  put-Same :
      (k : Text) (entry : Entry) (disk : Disk)
      → text_eq k name ≡ false
      → Same disk
      → Same (record disk { versions = put k entry disk.versions })
  put-Same k entry disk apart s = (
    s.0,
    find-put k name entry disk.versions
        ∙ ap (λ b. if b then some entry else find name disk.versions) apart
        ∙ s.1,
  )

  drop_staging-Same :
      (entry : Entry) (disk : Disk) → Same disk → Same (drop_staging w offer entry disk)
  unfolding drop_staging
  drop_staging-Same entry disk s =
      if_intro Same (w.fails Site.cleans_staging)
        (λ _. put-Same w.staging_name entry disk other_staging s) (λ _. s)

  find_promoted :
      (entry : Entry) (versions : List (Text × Entry))
      → find (target_name offer) (put (target_name offer) entry versions) ≡ some entry
  find_promoted entry versions =
      find-put (target_name offer) (target_name offer) entry versions
      ∙ ap (λ b. if b then some entry else find (target_name offer) versions)
          (text_eq_refl (target_name offer))

  module _ (active : Version) (read : read_current false before.current ≡ ok active)
      (own : same_version active offer.current ≡ true) where
    abbrev Fine : Attempt → Type 0
    Fine = Safe w offer name before

    activated-Safe :
        (failed : Bool) (disk undone : Disk)
        → Same undone
        → Aside w offer name before disk
        → Genuine w offer name before disk false
        → Fine (activated w offer active disk (write_current failed offer.latest disk) undone)
    unfolding activated write_current
    activated-Safe true disk undone s a g = s
    activated-Safe false disk undone s a g = (refl, refl, g, a, (read, own, refl))

    module _ (bytes : List ℕ) (right : verify_bytes w.sha256 bytes offer.artifact ≡ ok tt)
        (disk : Disk) (s : Same disk) where
      promote-Safe : w.self_check bytes ≡ true → Fine (promote w offer active bytes disk)
      unfolding promote
      promote-Safe runs =
          let promoted = record disk {
            versions = put (target_name offer) (folder (some (regular bytes))) disk.versions;
          } in
          let here = find_promoted (folder (some (regular bytes))) disk.versions in
          let t =
            put-Same (target_name offer) (folder (some (regular bytes))) disk other_target s in
          activated-Safe (w.fails Site.writes_current) promoted
            (if w.fails Site.cleans_target then promoted else disk)
            (if_intro Same (w.fails Site.cleans_target) {x = promoted} {y = disk} (λ _. t) (λ _. s))
            t.1 (bytes, ap client_file here, inr here, right, runs)

      stage-Safe : Fine (stage w offer active bytes disk)
      unfolding stage
      stage-Safe =
          let staged = drop_staging w offer (folder (some (regular bytes))) disk in
          let kept = drop_staging-Same (folder (some (regular bytes))) disk s in
          let early = drop_temp-Same bytes disk s in
          if_intro Fine (w.fails Site.makes_staging)
            {x = (drop_temp w offer bytes disk, err failed_call)} (λ _. early)
            (λ _.
              if_intro Fine (w.fails Site.moves_file)
                {x = (
                  drop_staging w offer (folder none) (drop_temp w offer bytes disk),
                  err failed_call,
                )}
                (λ _. drop_staging-Same (folder none) (drop_temp w offer bytes disk) early)
                (λ _.
                  if_intro Fine (text_eq w.goos (codes "linux") && w.fails Site.changes_mode)
                    {x = (staged, err failed_call)} (λ _. kept)
                    (λ _.
                      if_intro Fine (not (w.self_check bytes)) {x = (staged, err failed_self_check)}
                        (λ _. kept)
                        (λ runs.
                          if_intro Fine (w.fails Site.moves_staging) {x = (staged, err failed_call)}
                            (λ _. kept) (λ _. promote-Safe (ground (arith, runs)))))))

    downloaded-Safe :
        (disk : Disk) (r : Result UpdateError (List ℕ))
        → Same disk
        → download w.sha256 w.fails w.answer offer.artifact ≡ r
        → Fine (downloaded w offer active disk r)
    unfolding downloaded
    downloaded-Safe disk (err e) s d = s
    downloaded-Safe disk (ok bytes) s d =
        stage-Safe bytes (download-genuine w.sha256 w.fails w.answer offer.artifact bytes d) disk s

    fetch_target-Safe : (disk : Disk) → Same disk → Fine (fetch_target w offer active disk)
    unfolding fetch_target
    fetch_target-Safe disk s =
        if_intro Fine
          (w.fails Site.makes_directories || w.fails Site.creates_temp || w.fails Site.closes_temp)
          (λ _. s)
          (λ _.
            if_intro Fine (w.fails Site.removes_temp) (λ _. s)
              (λ _.
                downloaded-Safe disk (download w.sha256 w.fails w.answer offer.artifact) s refl))

    replace_target-Safe : Fine (replace_target w offer active before)
    unfolding replace_target
    replace_target-Safe =
        if_intro Fine (w.fails Site.removes_target) (λ _. (refl, refl))
          (λ _.
            fetch_target-Safe
              (record before { versions = remove (target_name offer) before.versions })
              (
                refl,
                find-remove (target_name offer) name before.versions
                    ∙ ap (λ b. if b then none else find name before.versions) other_target,
              ))

    there_already :
        (file : Option Node)
        → find (target_name offer) before.versions ≡ some (folder file)
        → is_ok (verify_installed w.sha256 (w.fails Site.opens_installed) file offer.artifact)
            && passes_self_check w file
          ≡ true
        → Genuine w offer name before before false
    there_already file f h =
        let k =
          verify_installed-regular w.sha256 (w.fails Site.opens_installed) file offer.artifact (
            is_ok-ok (verify_installed w.sha256 (w.fails Site.opens_installed) file offer.artifact)
              (ground (arith, h))) in
        let here = f ∙ ap (λ n. some (folder n)) k.1 in
        (k.0, ap client_file here, inr here, k.2, ground (arith, h, ap (passes_self_check w) k.1))

    install_target-Safe :
        (o : Option Entry)
        → find (target_name offer) before.versions ≡ o
        → Fine (install_target w offer active before o)
    unfolding install_target
    install_target-Safe none f = fetch_target-Safe before (refl, refl)
    install_target-Safe (some not_folder) f = (refl, refl)
    install_target-Safe (some (linked file)) f = (refl, refl)
    install_target-Safe (some (folder file)) f =
        if_intro Fine
          (is_ok (verify_installed w.sha256 (w.fails Site.opens_installed) file offer.artifact)
            && passes_self_check w file)
          {x = activated w offer active before
            (write_current (w.fails Site.writes_current) offer.latest before) before}
          {y = replace_target w offer active before}
          (λ good.
            activated-Safe (w.fails Site.writes_current) before before (refl, refl) refl
              (there_already file f good))
          (λ _. replace_target-Safe)

  pub shared_target-Safe :
      (active : Version)
      → read_current false before.current ≡ ok active
      → same_version active offer.latest ≡ true
      → (r : Result UpdateError Installed) → shared_target w offer before ≡ r
      → Safe w offer name before (before, r)
  unfolding shared_target
  shared_target-Safe active read new (err e) h = (refl, refl)
  shared_target-Safe active read new (ok r) h =
      let file = client_file (find (target_name offer) before.versions) in
      let k =
        >>=-eq-ok (verify_installed w.sha256 (w.fails Site.opens_installed) file offer.artifact) _
          h in
      let v =
        verify_installed-regular w.sha256 (w.fails Site.opens_installed) file offer.artifact k.1 in
      subst (λ x. Safe w offer name before (before, ok x)) (ok_inj k.2)
        (refl, refl, (v.0, v.1, inl refl, v.2, refl), refl, (active, read, new, refl))

  install_active-Safe :
      (r : Result UpdateError Version)
      → read_current false before.current ≡ r
      → Safe w offer name before (install_active w offer before r)
  unfolding install_active
  install_active-Safe (err e) read = (refl, refl)
  install_active-Safe (ok active) read =
      if_intro (Safe w offer name before) (not (is_supported w.goos)) (λ _. (refl, refl))
        (λ _.
          if_intro (Safe w offer name before) (same_version active offer.latest)
            {x = (before, shared_target w offer before)}
            (λ new. shared_target-Safe active read new (shared_target w offer before) refl)
            (λ _.
              if_intro (Safe w offer name before) (not (same_version active offer.current))
                {x = (before, err version_changed)} (λ _. (refl, refl))
                (λ own.
                  if_intro (Safe w offer name before) (w.fails Site.inspects_target)
                    {x = (before, err failed_call)} (λ _. (refl, refl))
                    (λ _.
                      install_target-Safe active read (ground (arith, own))
                        (find (target_name offer) before.versions) refl))))

  read-Safe :
      (failed : Bool)
      → Safe w offer name before
          (install_active w offer before (read_current failed before.current))
  unfolding read_current install_active
  read-Safe true = (refl, refl)
  read-Safe false = install_active-Safe (read_current false before.current) refl

  pub install_held-Safe : Safe w offer name before (install_held w offer before)
  unfolding install_held
  install_held-Safe = read-Safe (w.fails Site.reads_current)
