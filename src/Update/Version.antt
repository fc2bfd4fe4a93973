-- ===== src/Update/Version.antt =====
-- internal/update/version.go
pub mod RoundTrip
pub mod Order
use spacechat.Prelude.{
  ℕ, ◌==◌, Bool, true, false, ◌&&◌, List, [], ◌∷◌, ◌++◌, Option, none, some, Text, ltb,
  if◌then◌else◌, Result, ok, err, ◌>>=◌, or_error,
}
use spacechat.Prelude.Int.{ℤ, pos, negsuc, ltb_ℤ}
use spacechat.Decimal.{print, parse_uint, is_component}

pub record Version : Type 0 where
  pub major : ℕ
  pub minor : ℕ
  pub patch : ℕ

pub data VersionError : Type 0 where
  bad_format bad_component : VersionError

unfoldable pub cut_dot : ℕ → List Text → List Text
cut_dot c [] = (c ∷ []) ∷ []
cut_dot c (p ∷ ps) = if c == b'.' then [] ∷ p ∷ ps else (c ∷ p) ∷ ps

-- The parts of a text between its dots. A component holds no dot, so the pattern's three groups
-- can only be these.
unfoldable pub split_dots : Text → List Text
unfolding cut_dot
split_dots [] = [] ∷ []
split_dots (c ∷ s) = cut_dot c (split_dots s)

unfoldable pub three_components : List Text → Option (Text × Text × Text)
three_components (a ∷ b ∷ c ∷ []) =
    if is_component a && is_component b && is_component c then some (a, b, c) else none
three_components _ = none

-- `versionPattern.FindStringSubmatch`
unfoldable pub find_submatch : Text → Option (Text × Text × Text)
unfolding split_dots three_components
find_submatch text = three_components (split_dots text)

-- One round of the loop of `ParseVersion`.
abbrev component : Text → Result VersionError ℕ
component part = or_error (parse_uint part) bad_component

unfoldable pub parse_version : Text → Result VersionError Version
parse_version text = do
  (a, b, c) ← or_error (find_submatch text) bad_format
  major ← component a
  minor ← component b
  patch ← component c
  ok (record { major = major; minor = minor; patch = patch })

unfoldable pub string : Version → Text
string version = print version.major ++ b'.' ∷ (print version.minor ++ b'.' ∷ print version.patch)

-- The loop of `Compare` over the two arrays.
pub compare_arrays : List ℕ → List ℕ → ℤ
compare_arrays (l ∷ left) (r ∷ right) =
    if ltb l r then negsuc 0 else if ltb r l then pos 1 else compare_arrays left right
compare_arrays _ _ = pos 0

unfoldable pub compare_version : Version → Version → ℤ
unfolding compare_arrays
compare_version version other =
    compare_arrays (version.major ∷ version.minor ∷ version.patch ∷ [])
      (other.major ∷ other.minor ∷ other.patch ∷ [])

pub data Decision : Type 0 where
  current optional required ahead : Decision

unfoldable pub decision_for : Version → Version → Version → Decision
unfolding compare_version
decision_for now latest minimum =
    if ltb_ℤ (compare_version now minimum) (pos 0)
    then required
    else if ltb_ℤ (compare_version now latest) (pos 0)
    then optional
    else if ltb_ℤ (pos 0) (compare_version now latest)
    then ahead
    else current
