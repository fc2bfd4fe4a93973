-- ===== src/Update/Version/RoundTrip.antt =====
-- `ParseVersion` reads exactly what `String` writes.
use spacechat.Prelude.{
  ℕ, ◌≤◌, ◌≡◌, refl, ◌≢◌, true, List, [], ◌∷◌, ◌++◌, some, arith, Text, all, ok, Option-cases, inl,
  inr,
}
use spacechat.Decimal.{max_u64, print, is_component, is_digit}
use spacechat.Decimal.RoundTrip.{
  is_component-print, parse_uint-print, print-value_component, parse_uint-component,
  digits-component,
}
use spacechat.Update.Version.{
  Version, cut_dot, split_dots, component, three_components, find_submatch, parse_version, string,
}

pub record Fits (v : Version) : Type 0 where
  pub major : v.major ≤ max_u64
  pub minor : v.minor ≤ max_u64
  pub patch : v.patch ≤ max_u64

split_dots-digits : (s : Text) → all is_digit s ≡ true → split_dots s ≡ s ∷ []
unfolding split_dots
split_dots-digits [] h = refl
split_dots-digits (c ∷ s) h = ground (arith, split_dots-digits s)

cut_dot-ne-nil : (c : ℕ) (ps : List Text) → cut_dot c ps ≢ []
unfolding cut_dot
cut_dot-ne-nil c [] h = cc
cut_dot-ne-nil c (p ∷ ps) h = ground arith

split_dots-ne-nil : (s : Text) → split_dots s ≢ []
unfolding split_dots
split_dots-ne-nil [] h = cc
split_dots-ne-nil (c ∷ s) h = cut_dot-ne-nil c (split_dots s) h

cut_dot_at_dot : (ps : List Text) → ps ≢ [] → cut_dot b'.' ps ≡ [] ∷ ps
unfolding cut_dot
cut_dot_at_dot [] h = absurd (h refl)
cut_dot_at_dot (p ∷ ps) h = refl

split_dots-append :
    (s t : Text) → all is_digit s ≡ true → split_dots (s ++ b'.' ∷ t) ≡ s ∷ split_dots t
unfolding split_dots
split_dots-append [] t h = cut_dot_at_dot (split_dots t) (split_dots-ne-nil t)
split_dots-append (c ∷ s) t h = ground (arith, split_dots-append s t)

find_submatch-components :
    (a b c : Text)
    → is_component a ≡ true
    → is_component b ≡ true
    → is_component c ≡ true
    → find_submatch (a ++ b'.' ∷ (b ++ b'.' ∷ c)) ≡ some (a, b, c)
unfolding find_submatch
find_submatch-components a b c p q r = rw (
  split_dots-append a _ (digits-component a p),
  split_dots-append b _ (digits-component b q),
  split_dots-digits c (digits-component c r),
  p,
  q,
  r,
)

-- Every version of 64-bit components is read back from its print.
pub parse_version-string : (v : Version) → Fits v → parse_version (string v) ≡ ok v
unfolding parse_version string
parse_version-string v h = ground (
  arith,
  find_submatch-components (print v.major) (print v.minor) (print v.patch),
  is_component-print v.major,
  is_component-print v.minor,
  is_component-print v.patch,
  parse_uint-print v.major,
  parse_uint-print v.minor,
  parse_uint-print v.patch,
)

join_dots : List Text → Text
join_dots [] = []
join_dots (p ∷ []) = p
join_dots (p ∷ q ∷ ps) = p ++ b'.' ∷ join_dots (q ∷ ps)

join_dots-cut_dot : (c : ℕ) (ps : List Text) → ps ≢ [] → join_dots (cut_dot c ps) ≡ c ∷ join_dots ps
unfolding join_dots cut_dot
join_dots-cut_dot c [] h = absurd (h refl)
join_dots-cut_dot c (p ∷ []) h = ground arith
join_dots-cut_dot c (p ∷ q ∷ ps) h = ground arith

join_dots-split_dots : (s : Text) → join_dots (split_dots s) ≡ s
join_dots-split_dots [] = unfold join_dots split_dots in refl
join_dots-split_dots (c ∷ s) = cc (
  join_dots-cut_dot c (split_dots s) (split_dots-ne-nil s),
  join_dots-split_dots s,
  split_dots_cons,
)
  where
    split_dots_cons : split_dots (c ∷ s) ≡ cut_dot c (split_dots s)
    split_dots_cons = unfold split_dots in refl

three_components-some :
    (ps : List Text) (a b c : Text)
    → three_components ps ≡ some (a, b, c)
    → (join_dots ps ≡ a ++ b'.' ∷ (b ++ b'.' ∷ c))
      × (is_component a ≡ true)
      × (is_component b ≡ true)
      × (is_component c ≡ true)
unfolding three_components join_dots
three_components-some (x ∷ y ∷ z ∷ []) a b c h = ground arith
three_components-some _ a b c h = cc

find_submatch_sound :
    (s a b c : Text)
    → find_submatch s ≡ some (a, b, c)
    → (s ≡ a ++ b'.' ∷ (b ++ b'.' ∷ c))
      × (is_component a ≡ true)
      × (is_component b ≡ true)
      × (is_component c ≡ true)
unfolding find_submatch
find_submatch_sound s a b c h =
    ground (arith, join_dots-split_dots s, three_components-some (split_dots s) a b c)

component_sound :
    (s : Text) (n : ℕ) → is_component s ≡ true → component s ≡ ok n → (print n ≡ s) × (n ≤ max_u64)
component_sound s n c h = ground (arith, parse_uint-component s, print-value_component s)

-- An accepted text is the print of the version that it stands for, and each component fits.
pub string-parse_version :
    (text : Text) (v : Version) → parse_version text ≡ ok v → (string v ≡ text) × Fits v
unfolding parse_version string
string-parse_version text v h = elim (Option-cases (find_submatch text)) [
  | inl e ↦ ground arith
  | inr ((a, b, c), e) ↦ ground (
    arith,
    find_submatch_sound text a b c,
    component_sound a v.major,
    component_sound b v.minor,
    component_sound c v.patch,
  )
]
