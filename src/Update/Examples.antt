-- ===== src/Update/Examples.antt =====
-- Examples of the laws on an installation of version 1.3.0 over 1.0.2, with a toy digest.
use spacechat.Prelude.{
  ℕ, ◌+◌, ◌*◌, ◌≡◌, ◌⊎◌, refl, true, false, List, [], ◌∷◌, none, some, Text, codes, text_eq, ok,
}
use spacechat.Prelude.TextMap.{find, put, remove}
use spacechat.Prelude.Int.{pos}
use spacechat.Update.Version.{
  Version, parse_version, find_submatch, split_dots, cut_dot, three_components, string,
}
use spacechat.Decimal.{print, print_fuel, is_component, parse_uint}
use spacechat.Update.Manifest.{is_digest, is_digest_character, has_separator}
use spacechat.Update.Disk.{
  Disk, regular, Entry, folder, pointer_to, read_current, read_pointer, trim_suffix, write_current,
  download,
}
use spacechat.Update.Lock.{
  Rivals, own_lock, acquire, attempt, is_stale, after_inspection, remove_stale, attempt_again,
  create_lock, check_lock, release, release_file,
}
use spacechat.Update.Lock.Exclusive.{Taken, acquire-Taken}
use spacechat.Update.Install.{
  Offer, Installed, Outside, install, install_acquired, install_held, install_active,
  install_target, fetch_target, downloaded, stage, promote, activated, drop_staging, drop_temp,
  unlock,
}
use spacechat.Update.Install.Safe.{Safe}
use spacechat.Update.Install.Whole.{install-Safe}
use spacechat.Update.Install.Rollback.{rollback, rollback_acquired, rollback_active, restored}
use spacechat.Update.Install.Back.{rollback-install}
use spacechat.Update.Cleanup.{cleanup, removed, version_of}
use spacechat.Update.Cleanup.Newest.{Outdated, cleanup-Outdated}

abbrev old_version : Version
old_version = record { major = 1; minor = 0; patch = 2 }

abbrev new_version : Version
new_version = record { major = 1; minor = 3; patch = 0 }

abbrev client : List ℕ
client = 7 ∷ 8 ∷ []

abbrev digest : Text
digest = codes "00000000000000000000000000000000000000000000000000000000000000aa"

abbrev outside : Outside
outside = record {
  sha256 = λ bytes. digest;
  fails = λ site. false;
  goos = codes "linux";
  self_check = λ bytes. true;
  answer = some (record { status_code = 200; content_length = pos 2; body = some client });
  temp_name = codes ".download-1";
  staging_name = codes ".1.3.0-1";
}

abbrev offer : Offer
offer = record {
  artifact = record {
    file = codes "spacechat-client-linux-amd64-1.3.0";
    size = pos 2;
    sha256 = digest;
  };
  current = old_version;
  latest = new_version;
}

abbrev old_entry : Entry
old_entry = folder (some (regular (1 ∷ [])))

abbrev disk : Disk
disk = record {
  lock = none;
  current = some (pointer_to old_version);
  versions = (codes "1.0.2", old_entry) ∷ [];
  temp = [];
}

-- No other process touches the lock.
abbrev alone : Rivals
alone = record {
  before_stat = λ o. o;
  before_open = λ o. o;
  before_removal = λ o. o;
  before_creation = λ o. o;
  before_second_stat = λ o. o;
  before_second_open = λ o. o;
  before_check = λ o. o;
}

install-Safe_example :
    Safe outside offer (codes "1.0.2") disk (install outside (pos 3) 1 9 alone offer none disk)
unfolding text_eq string print print_fuel
install-Safe_example =
    install-Safe outside offer (codes "1.0.2") (pos 3) 1 9 alone none disk refl refl

-- An hour after another process made its lock.
abbrev hour : ℕ
hour = 3600 * 1000000000

abbrev abandoned : Disk
abandoned = record disk {
  lock = some (record { inode = 7; is_safe = true; metadata = some (pos 5, 1) });
}

-- Another process makes a lock of its own between the inspection and the removal.
abbrev hasty : Rivals
hasty = record alone {
  before_removal = λ o. some (record { inode = 8; is_safe = true; metadata = some (pos 6, hour) });
}

-- The fresh lock of the other process is gone then.
hasty_run :
    acquire (λ site. false) (pos 3) 1 (1 + hour) hasty abandoned
    ≡ (record disk { lock = some (own_lock (λ site. false) (pos 3) 1 (1 + hour) hasty) }, ok 1)
unfolding acquire attempt is_stale after_inspection remove_stale attempt_again create_lock
    check_lock
hasty_run = refl

acquire-Taken_example :
    Taken
      (λ site. false)
      (pos 3)
      1
      (1 + hour)
      hasty
      abandoned
      (acquire (λ site. false) (pos 3) 1 (1 + hour) hasty abandoned)
acquire-Taken_example = acquire-Taken (λ site. false) (pos 3) 1 (1 + hour) hasty abandoned

cleanup-Outdated_example :
    (find (codes "1.0.2") (cleanup (λ name. removed) new_version disk).0.versions ≡ some old_entry)
    ⊎ Outdated new_version disk (cleanup (λ name. removed) new_version disk).0 old_version
unfolding find text_eq version_of parse_version find_submatch split_dots cut_dot three_components
    is_component parse_uint
cleanup-Outdated_example =
    cleanup-Outdated (λ name. removed) new_version old_version disk (codes "1.0.2") old_entry refl
      refl

abbrev new_entry : Entry
new_entry = folder (some (regular client))

abbrev installed : Installed
installed = record {
  entry = codes "1.3.0";
  previous = old_version;
  target = new_version;
  shared = false;
}

abbrev after : Disk
after = record {
  lock = none;
  current = some (pointer_to new_version);
  versions = (codes "1.0.2", old_entry) ∷ (codes "1.3.0", new_entry) ∷ [];
  temp = [];
}

install_run : install outside (pos 3) 1 9 alone offer none disk ≡ (after, ok installed)
unfolding find put text_eq string print print_fuel parse_version find_submatch split_dots cut_dot
    three_components is_component parse_uint install install_acquired acquire attempt create_lock
    check_lock install_held install_active read_current read_pointer trim_suffix install_target
    fetch_target download is_digest is_digest_character has_separator downloaded stage promote
    activated write_current drop_staging drop_temp unlock release release_file
install_run = refl

rollback_run : rollback outside (pos 3) 2 20 alone installed after ≡ (disk, ok tt)
unfolding find remove text_eq string print print_fuel parse_version find_submatch split_dots cut_dot
    three_components is_component parse_uint rollback rollback_acquired acquire attempt create_lock
    check_lock rollback_active restored read_current read_pointer trim_suffix write_current release
    release_file
rollback_run = refl

rollback-install_example :
    (read_current false disk.current ≡ ok old_version)
    × (read_current false disk.current ≡ ok old_version)
    × (find (codes "1.0.2") disk.versions ≡ find (codes "1.0.2") disk.versions)
unfolding text_eq string print print_fuel
rollback-install_example =
    rollback-install outside outside offer (codes "1.0.2") (pos 3) (pos 3) 1 2 9 20 alone alone none
      disk after disk installed refl refl install_run none rollback_run
