-- ===== src/Update/Version/Order.antt =====
-- `Compare` orders versions, and `DecisionFor` reads that order.
use spacechat.Prelude.{◌≡◌, ◌↔◌, ◌⊎◌, ◌<◌, true, arith}
use spacechat.Prelude.Int.{pos, negsuc, ltb_ℤ}
use spacechat.Update.Version.{
  Version, compare_version, current, optional, required, ahead, decision_for,
}

-- The lexicographic order of the components.
abbrev pub Older : Version → Version → Type 0
Older v w =
    (v.major < w.major)
    ⊎ ((v.major ≡ w.major) × (v.minor < w.minor))
    ⊎ ((v.major ≡ w.major) × (v.minor ≡ w.minor) × (v.patch < w.patch))

-- `Compare` answers -1, 0 or 1 exactly when the first version is older than, equal to or newer
-- than the second, in the lexicographic order of major, minor and patch.
pub compare_version-Older :
    (v w : Version)
    → ((compare_version v w ≡ negsuc 0) ↔ Older v w)
      × ((compare_version v w ≡ pos 0) ↔ (v ≡ w))
      × ((compare_version v w ≡ pos 1) ↔ Older w v)
unfolding compare_version
compare_version-Older v w = ground arith

pub compare_version_trans :
    (u v w : Version)
    → ltb_ℤ (compare_version u v) (pos 0) ≡ true
    → ltb_ℤ (compare_version v w) (pos 0) ≡ true
    → ltb_ℤ (compare_version u w) (pos 0) ≡ true
unfolding compare_version
compare_version_trans u v w h k = ground arith

-- The decision for a published range whose minimum is not newer than its latest version.
pub decision_for_cases :
    (now latest minimum : Version)
    → ¬ Older latest minimum
    → ((decision_for now latest minimum ≡ required) ↔ Older now minimum)
      × ((decision_for now latest minimum ≡ optional) ↔ ((¬ Older now minimum) × Older now latest))
      × ((decision_for now latest minimum ≡ current) ↔ (now ≡ latest))
      × ((decision_for now latest minimum ≡ ahead) ↔ Older latest now)
unfolding decision_for
decision_for_cases now latest minimum h = ground arith
