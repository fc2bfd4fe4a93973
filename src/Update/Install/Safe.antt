-- ===== src/Update/Install/Safe.antt =====
-- What an installation leaves behind, whichever calls of the operating system fail.
use spacechat.Prelude.{
  ℕ, ◌≡◌, refl, ◌⊎◌, inl, inr, Bool, true, false, ◌||◌, List, Option, none, some, arith, Text,
  if◌then◌else◌, Option-cases, Result, ok, err,
}
use spacechat.Prelude.TextMap.{find}
use spacechat.Update.Version.{Version}
use spacechat.Update.Manifest.{Artifact}
use spacechat.Update.Disk.{
  Disk, Node, regular, special, folder, Site, UpdateError, Response, read_current, pointer_to,
  verify_bytes, verify_installed, download,
}
use spacechat.Update.Install.{
  Offer, Outside, Attempt, same_version, is_ok, target_name, client_file,
}

module _ (w : Outside) (offer : Offer) (name : Text) (before : Disk) where
  -- The directory of the name is as it was.
  abbrev pub Aside : Disk → Type 0
  Aside after = find name after.versions ≡ find name before.versions

  -- The client of the latest version is in place, and is what the manifest says. It is in a directory of its own,
  -- but for one that another process has installed, whose directory may be a link.
  abbrev pub Genuine : Disk → Bool → Type 0
  Genuine after shared =
      (bytes : List ℕ) × (client_file (find (target_name offer) after.versions)
        ≡ some (regular bytes))
      × ((shared ≡ true)
          ⊎ (find (target_name offer) after.versions ≡ some (folder (some (regular bytes)))))
      × (verify_bytes w.sha256 bytes offer.artifact ≡ ok tt)
      × (shared || w.self_check bytes ≡ true)

  -- An error leaves the pointer; a result has a client that is genuine, and a pointer to it.
  abbrev pub Safe : Attempt → Type 0
  Safe (after, err e) = (after.current ≡ before.current) × Aside after
  Safe (after, ok r) =
      (r.target ≡ offer.latest)
      × (r.entry ≡ target_name offer)
      × Genuine after r.shared
      × Aside after
      × (if r.shared
          then ((active : Version) × (read_current false before.current ≡ ok active)
              × (same_version active offer.latest ≡ true)
              × (after.current ≡ before.current))
          else (read_current false before.current ≡ ok r.previous)
            × (same_version r.previous offer.current ≡ true)
            × (after.current ≡ some (pointer_to offer.latest)))

pub verify_installed-regular :
    (sha256 : List ℕ → Text) (failed : Bool) (file : Option Node) (a : Artifact)
    → verify_installed sha256 failed file a ≡ ok tt
    → (bytes : List ℕ) × (file ≡ some (regular bytes)) × (verify_bytes sha256 bytes a ≡ ok tt)
unfolding verify_installed
verify_installed-regular sha256 true file a h = cc
verify_installed-regular sha256 false none a h = cc
verify_installed-regular sha256 false (some special) a h = cc
verify_installed-regular sha256 false (some (regular bytes)) a h = (bytes, refl, h)

pub is_ok-ok : (r : Result UpdateError (Unit {0})) → is_ok r ≡ true → r ≡ ok tt
is_ok-ok (ok u) h = refl
is_ok-ok (err e) h = cc

pub download-genuine :
    (sha256 : List ℕ → Text) (fails : Site → Bool) (answer : Option Response) (a : Artifact)
    (bytes : List ℕ)
    → download sha256 fails answer a ≡ ok bytes
    → verify_bytes sha256 bytes a ≡ ok tt
unfolding download verify_bytes
download-genuine sha256 fails answer a bytes h = elim (Option-cases answer) [
  | inl silent ↦ absurd (ground (arith, h, silent))
  | inr (response, e) ↦ (elim (Option-cases response.body) [
    | inl broken ↦ absurd (ground (arith, h, e, broken))
    | inr (body, f) ↦ ground (arith, h, e, f)
  ])
]
