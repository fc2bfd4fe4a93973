-- ===== src/Update/Cleanup/Found.antt =====
-- The first loop of `Cleanup` finds the newest version other than the current one.
use spacechat.Prelude.{
  ◌≡◌, refl, sym, ap, ◌∙◌, ◌⊎◌, ◌||◌, any, inl, inr, Bool, true, false, not, List, [], ◌∷◌, Option,
  none, some, arith, Text, text_eq, text_eq_iff, if_intro, Bool-cases, subst,
}
use spacechat.Prelude.Int.{pos, ltb_ℤ}
use spacechat.Prelude.TextMap.{find}
use spacechat.Update.Version.{Version, compare_version}
use spacechat.Update.Disk.{Entry}
use spacechat.Update.Install.{same_version}
use spacechat.Update.Cleanup.{version_of, is_newer, is_version, newer, newest_other}

-- The entry is of a version other than the current one.
abbrev pub is_other : Version → Option Version → Bool
is_other current none = false
is_other current (some v) = not (same_version v current)

-- At least as new as what was found so far.
abbrev pub at_least : Option Version → Option Version → Bool
at_least none p = true
at_least (some v) none = false
at_least (some v) (some p) = not (ltb_ℤ (pos 0) (compare_version v p))

same_version-eq : (v w : Version) → same_version v w ≡ true → v ≡ w
same_version-eq v w h = ground (arith, h)

compare_step :
    (u v w : Version)
    → ltb_ℤ (pos 0) (compare_version u v) ≡ false
    → ltb_ℤ (pos 0) (compare_version v w) ≡ false
    → ltb_ℤ (pos 0) (compare_version u w) ≡ false
unfolding compare_version
compare_step u v w h k = ground arith

compare_back :
    (u v : Version)
    → ltb_ℤ (pos 0) (compare_version v u) ≡ true
    → ltb_ℤ (pos 0) (compare_version u v) ≡ false
unfolding compare_version
compare_back u v h = ground arith

compare_self : (v : Version) → ltb_ℤ (pos 0) (compare_version v v) ≡ false
unfolding compare_version
compare_self v = ground arith

pub compare_strict :
    (v p : Version)
    → ltb_ℤ (pos 0) (compare_version v p) ≡ false
    → same_version v p ≡ false
    → ltb_ℤ (pos 0) (compare_version p v) ≡ true
unfolding compare_version
compare_strict v p h k = ground arith

at_least_trans :
    (a b c : Option Version) → at_least a b ≡ true → at_least b c ≡ true → at_least a c ≡ true
at_least_trans none b c h k = refl
at_least_trans (some u) none c h k = cc
at_least_trans (some u) (some v) none h k = cc
at_least_trans (some u) (some v) (some w) h k = ground (arith, h, k, compare_step u v w)

at_least_refl : (a : Option Version) → at_least a a ≡ true
at_least_refl none = refl
at_least_refl (some v) = ground (arith, compare_self v)

module _ (current : Version) where
  newer-at_least :
      (previous o : Option Version) → at_least previous (newer current previous o) ≡ true
  unfolding newer
  newer-at_least previous none = at_least_refl previous
  newer-at_least previous (some v) =
      if_intro (λ r. at_least previous r ≡ true) (same_version v current)
        (λ _. at_least_refl previous)
        (λ _.
          if_intro (λ r. at_least previous r ≡ true) (is_newer v previous) {x = some v}
            (newer_than previous) (λ _. at_least_refl previous))
    where
      newer_than : (o : Option Version) → is_newer v o ≡ true → at_least o (some v) ≡ true
      newer_than none h = refl
      newer_than (some p) h = ground (arith, h, compare_back p v)

  newer-new :
      (previous o : Option Version)
      → is_other current o ≡ true
      → at_least o (newer current previous o) ≡ true
  unfolding newer
  newer-new previous none h = cc
  newer-new previous (some v) h =
      if_intro (λ r. at_least (some v) r ≡ true) (same_version v current)
        (λ own. absurd (ground (arith, own, h)))
        (λ _.
          if_intro (λ r. at_least (some v) r ≡ true) (is_newer v previous) {x = some v}
            (λ _. at_least_refl (some v)) (not_newer previous))
    where
      not_newer : (o : Option Version) → is_newer v o ≡ false → at_least (some v) o ≡ true
      not_newer none k = cc
      not_newer (some p) k = ground (arith, k)

  newest_other-at_least :
      (previous : Option Version) (es : List (Text × Entry))
      → at_least previous (newest_other current previous es) ≡ true
  unfolding newest_other
  newest_other-at_least previous [] = at_least_refl previous
  newest_other-at_least previous (e ∷ es) =
      at_least_trans previous (newer current previous (version_of e))
        (newest_other current (newer current previous (version_of e)) es)
        (newer-at_least previous (version_of e))
        (newest_other-at_least (newer current previous (version_of e)) es)

  pub newest_other-found :
      (previous : Option Version) (es : List (Text × Entry)) (name : Text) (entry : Entry)
      → find name es ≡ some entry
      → is_other current (version_of (name, entry)) ≡ true
      → at_least (version_of (name, entry)) (newest_other current previous es) ≡ true
  unfolding newest_other find
  newest_other-found previous [] name entry h o = cc
  newest_other-found previous ((k, first) ∷ es) name entry h o =
      elim (Bool-cases (text_eq k name)) [
        | inl hit ↦
            let same : (k, first) ≡ (name, entry) = ground (arith, hit, h, text_eq_iff k name) in
            at_least_trans (version_of (name, entry))
              (newer current previous (version_of (k, first))) _
              (subst
                (λ e.
                  at_least (version_of (name, entry)) (newer current previous (version_of e))
                  ≡ true)
                (sym same) (newer-new previous (version_of (name, entry)) o))
              (newest_other-at_least (newer current previous (version_of (k, first))) es)
        | inr miss ↦
            newest_other-found (newer current previous (version_of (k, first))) es name entry
              (ground (arith, miss, h)) o
      ]

  -- What one round holds was held before, or is the entry's, which is another version.
  newer-from :
      (previous o : Option Version) (p : Version)
      → newer current previous o ≡ some p
      → (previous ≡ some p) ⊎ ((o ≡ some p) × (same_version p current ≡ false))
  unfolding newer
  newer-from previous none p h = inl h
  newer-from previous (some v) p h = elim (Bool-cases (same_version v current)) [
    | inl own ↦ inl (ground (arith, own, h))
    | inr other ↦ (elim (Bool-cases (is_newer v previous)) [
      | inl later ↦
          let e : some v ≡ some p = ground (arith, other, later, h) in
          inr (e, ground (arith, other, e))
      | inr earlier ↦ inl (ground (arith, other, earlier, h))
    ])
  ]

  -- What the first loop finds is another version, and an entry's.
  pub newest_other-from :
      (previous : Option Version) (es : List (Text × Entry)) (p : Version)
      → newest_other current previous es ≡ some p
      → (previous ≡ some p)
        ⊎ ((same_version p current ≡ false) × (any (λ e. is_version p (version_of e)) es ≡ true))
  unfolding newest_other
  newest_other-from previous [] p h = inl h
  newest_other-from previous (e ∷ es) p h =
      elim (newest_other-from (newer current previous (version_of e)) es p h) [
        | inl held ↦ (elim (newer-from previous (version_of e) p held) [
          | inl before ↦ inl before
          | inr (here, other) ↦ inr (
            other,
            ap (λ o. is_version p o || any (λ x. is_version p (version_of x)) es) here
                ∙ ground arith,
          )
        ])
        | inr (other, there) ↦ inr (other, or_intro (is_version p (version_of e)) _ there)
      ]
    where
      or_intro : (a b : Bool) → b ≡ true → a || b ≡ true
      or_intro true b h = refl
      or_intro false b h = h
