-- ===== src/Update/Cleanup/Newest.antt =====
-- The current version and the newest of the others stay, whatever else is removed.
use spacechat.Prelude.{
  ◌≡◌, refl, sym, ap, ◌∙◌, ◌⊎◌, ◌||◌, any, inl, inr, Bool, true, false, List, [], ◌∷◌, Option, none,
  some, arith, Text, text_eq, text_eq_iff, if_intro, Bool-cases, subst,
}
use spacechat.Prelude.Int.{pos, ltb_ℤ}
use spacechat.Prelude.TextMap.{find}
use spacechat.Update.Version.{Version, compare_version}
use spacechat.Update.Disk.{Disk, Entry}
use spacechat.Update.Install.{same_version}
use spacechat.Update.Cleanup.{
  Removal, removed, denied, broken, is_version, version_of, newest_other, keeps, remove_entry,
  remove_entries, clean_temp, clean_versions, cleaned_temp, cleanup,
}
use spacechat.Update.Cleanup.Found.{
  is_other, at_least, compare_strict, newest_other-found, newest_other-from,
}

find-remove_entry :
    (k : Text) (first : Entry) (es : List (Text × Entry)) (rest : List (Text × Entry) × Bool)
    (r : Removal) (name : Text) (entry : Entry)
    → text_eq k name ≡ false
    → find name es ≡ some entry
    → find name rest.0 ≡ some entry
    → find name (remove_entry (k, first) es rest r).0 ≡ some entry
unfolding remove_entry find
find-remove_entry k first es rest removed name entry miss h g = g
find-remove_entry k first es rest denied name entry miss h g = ground (arith, miss, g)
find-remove_entry k first es rest broken name entry miss h g = ground (arith, miss, h)

differ : {b : Bool} → b ≡ false → b ≡ true → ⊥
differ f t = cc

-- What a loop keeps is there afterwards, whatever could not be removed.
find-remove_entries :
    (removal : Text → Removal) (stays : Text × Entry → Bool) (es : List (Text × Entry))
    (name : Text) (entry : Entry)
    → find name es ≡ some entry
    → stays (name, entry) ≡ true
    → find name (remove_entries removal stays es).0 ≡ some entry
unfolding remove_entries find
find-remove_entries removal stays [] name entry h s = cc
find-remove_entries removal stays ((k, first) ∷ es) name entry h s =
    let rest = remove_entries removal stays es in
    let P : List (Text × Entry) × Bool → Type 0 = λ r. find name r.0 ≡ some entry in
    elim (Bool-cases (text_eq k name)) [
      | inl hit ↦
          let same : ◌≡◌ {A = Text × Entry} (k, first) (name, entry) =
            ground (arith, hit, h, text_eq_iff k name) in
          if_intro P (stays (k, first)) {x = ((k, first) ∷ rest.0, rest.1)}
            (λ _. ground (arith, hit, h)) (λ gone. absurd (differ gone (ap stays same ∙ s)))
      | inr miss ↦
          let later : find name es ≡ some entry = ground (arith, miss, h) in
          let there = find-remove_entries removal stays es name entry later s in
          if_intro P (stays (k, first)) {x = ((k, first) ∷ rest.0, rest.1)}
            {y = remove_entry (k, first) es rest (removal k)} (λ _. ground (arith, miss, there))
            (λ _. find-remove_entry k first es rest (removal k) name entry miss later there)
    ]

or_here : (a b : Bool) → a ≡ true → a || b ≡ true
or_here a b h = ground (arith, h)

or_there : (a b : Bool) → b ≡ true → a || b ≡ true
or_there true b h = refl
or_there false b h = h

-- A kept entry is found by its version, too.
module _ (removal : Text → Removal) (stays test : Text × Entry → Bool)
    (h : (e : Text × Entry) → test e ≡ true → stays e ≡ true) where
  any-remove_entry :
      (e : Text × Entry) (es : List (Text × Entry)) (rest : List (Text × Entry) × Bool)
      (r : Removal)
      → any test es ≡ true
      → any test rest.0 ≡ true
      → any test (remove_entry e es rest r).0 ≡ true
  unfolding remove_entry
  any-remove_entry e es rest removed k g = g
  any-remove_entry e es rest denied k g = or_there (test e) _ g
  any-remove_entry e es rest broken k g = or_there (test e) _ k

  any-remove_entries :
      (es : List (Text × Entry))
      → any test es ≡ true
      → any test (remove_entries removal stays es).0 ≡ true
  unfolding remove_entries
  any-remove_entries [] k = cc
  any-remove_entries (e ∷ es) k =
      let rest = remove_entries removal stays es in
      let P : List (Text × Entry) × Bool → Type 0 = λ r. any test r.0 ≡ true in
      elim (Bool-cases (test e)) [
        | inl hit ↦
            if_intro P (stays e) {x = (e ∷ rest.0, rest.1)} (λ _. or_here (test e) _ hit)
              (λ gone. absurd (differ gone (h e hit)))
        | inr miss ↦
            let later : any test es ≡ true = sym (ap (λ b. b || any test es) miss) ∙ k in
            let there = any-remove_entries es later in
            if_intro P (stays e) {x = (e ∷ rest.0, rest.1)}
              {y = remove_entry e es rest (removal e.0)} (λ _. or_there (test e) _ there)
              (λ _. any-remove_entry e es rest (removal e.0) later there)
      ]

-- Why a version may go: it is not the current one, and what the first loop finds is newer, not the
-- current one either, and in the directory afterwards.
abbrev pub Outdated : Version → Disk → Disk → Version → Type 0
Outdated current disk after v =
    (same_version v current ≡ false)
    × (p : Version) × (newest_other current none disk.versions ≡ some p)
    × (ltb_ℤ (pos 0) (compare_version p v) ≡ true)
    × (same_version p current ≡ false)
    × (any (λ e. is_version p (version_of e)) after.versions ≡ true)

-- What decides that: the part without the directory afterwards.
abbrev Older : Version → Disk → Version → Type 0
Older current disk v =
    (same_version v current ≡ false)
    × (p : Version) × (newest_other current none disk.versions ≡ some p)
    × (ltb_ℤ (pos 0) (compare_version p v) ≡ true)

keeps_or :
    (current v : Version) (disk : Disk) (o : Option Version)
    → newest_other current none disk.versions ≡ o
    → (same_version v current ≡ false → at_least (some v) o ≡ true)
    → (keeps current o (some v) ≡ true) ⊎ Older current disk v
unfolding keeps
keeps_or current v disk none e h = elim (Bool-cases (same_version v current)) [
  | inl own ↦ inl (ground (arith, own))
  | inr other ↦ absurd (ground (arith, h other))
]
keeps_or current v disk (some p) e h = elim (Bool-cases (same_version v current)) [
  | inl own ↦ inl (ground (arith, own))
  | inr other ↦ (elim (Bool-cases (same_version v p)) [
    | inl same ↦ inl (ground (arith, same))
    | inr apart ↦ inr (other, p, e, compare_strict v p (ground (arith, h other)) apart)
  ])
]

cleaned_temp-versions :
    (removal : Text → Removal) (current : Version) (disk : Disk) (name : Text) (entry : Entry)
    → find name disk.versions ≡ some entry
    → keeps current (newest_other current none disk.versions) (version_of (name, entry)) ≡ true
    → (x : Disk × Bool) → x.0.versions ≡ disk.versions
    → find name (cleaned_temp removal current x).0.versions ≡ some entry
unfolding cleaned_temp clean_versions
cleaned_temp-versions removal current disk name entry h k (other, false) e = ap (find name) e ∙ h
cleaned_temp-versions removal current disk name entry h k (other, true) e =
    find-remove_entries removal
      (λ f. keeps current (newest_other current none other.versions) (version_of f)) other.versions
      name entry (ap (find name) e ∙ h)
      (ap (λ vs. keeps current (newest_other current none vs) (version_of (name, entry))) e ∙ k)

keeps-is_version :
    (current p : Version) (o : Option Version)
    → is_version p o ≡ true
    → keeps current (some p) o ≡ true
unfolding keeps
keeps-is_version current p none h = cc
keeps-is_version current p (some q) h = ground (arith, h)

-- The newest of the others is among the entries afterwards.
cleaned_temp-newest :
    (removal : Text → Removal) (current p : Version) (disk : Disk)
    → newest_other current none disk.versions ≡ some p
    → any (λ e. is_version p (version_of e)) disk.versions ≡ true
    → (x : Disk × Bool) → x.0.versions ≡ disk.versions
    → any (λ e. is_version p (version_of e)) (cleaned_temp removal current x).0.versions ≡ true
unfolding cleaned_temp clean_versions
cleaned_temp-newest removal current p disk n h (other, false) e =
    ap (any (λ e. is_version p (version_of e))) e ∙ h
cleaned_temp-newest removal current p disk n h (other, true) e =
    any-remove_entries removal
      (λ f. keeps current (newest_other current none other.versions) (version_of f))
      (λ e. is_version p (version_of e))
      (λ f hit.
        ap (λ o. keeps current o (version_of f)) (ap (newest_other current none) e ∙ n)
        ∙ keeps-is_version current p (version_of f) hit)
      other.versions (ap (any (λ e. is_version p (version_of e))) e ∙ h)

outdated :
    (removal : Text → Removal) (current v : Version) (disk : Disk)
    → Older current disk v
    → Outdated current disk (cleanup removal current disk).0 v
unfolding cleanup clean_temp
outdated removal current v disk (other, p, n, later) =
    elim (newest_other-from current none disk.versions p n) [
      | inl never ↦ absurd (none-some never)
      | inr (apart, there) ↦
          (other, p, n, later, apart, cleaned_temp-newest removal current p disk n there _ refl)
    ]
  where
    none-some : {A : Type 0} {a : A} → none ≡ some a → ⊥
    none-some h = cc

-- Whichever removals are refused or fail, a version's directory is there after the cleanup as it was before, unless it
-- is not the current version, and the newest version in the directory other than the current one is strictly newer and
-- has an entry there after the cleanup.
pub cleanup-Outdated :
    (removal : Text → Removal) (current v : Version) (disk : Disk) (name : Text) (entry : Entry)
    → find name disk.versions ≡ some entry
    → version_of (name, entry) ≡ some v
    → (find name (cleanup removal current disk).0.versions ≡ some entry)
      ⊎ Outdated current disk (cleanup removal current disk).0 v
unfolding cleanup clean_temp
cleanup-Outdated removal current v disk name entry h e =
    elim (keeps_or current v disk (newest_other current none disk.versions) refl (λ other.
      subst (λ o. at_least o (newest_other current none disk.versions) ≡ true) e
        (newest_other-found current none disk.versions name entry h
          (ap (is_other current) e ∙ ground (arith, other))))) [
            | inl stays ↦ inl (
                cleaned_temp-versions removal current disk name entry h
                  (ap (keeps current (newest_other current none disk.versions)) e ∙ stays) _ refl)
            | inr gone ↦ inr (outdated removal current v disk gone)
          ]
