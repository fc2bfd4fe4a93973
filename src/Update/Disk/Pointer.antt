-- ===== src/Update/Disk/Pointer.antt =====
-- What `WriteCurrent` writes, `ReadCurrent` reads.
use spacechat.Prelude.{
  ℕ, zero, suc, ◌+◌, ◌*◌, ◌/◌, ◌%◌, ◌^◌, ◌==◌, ◌≡◌, ◌≤◌, ◌<◌, refl, ap, Bool, true, false, ◌||◌, [],
  ◌∷◌, ◌++◌, Option, none, some, arith, Text, ltb, length, length-append, any, all, Result, ok, err,
  refuse, >>=-eq-ok, Bool-cases, inl, inr,
}
use spacechat.Decimal.{print, print_fuel, is_digit, max_u64}
use spacechat.Decimal.RoundTrip.{digits-component, is_component-print}
use spacechat.Update.Version.{Version, VersionError, parse_version, string}
use spacechat.Update.Version.RoundTrip.{Fits, parse_version-string, string-parse_version}
use spacechat.Update.Disk.{
  Node, regular, special, trim_suffix, read_pointer, read_current, pointer_to, or_bad_version,
  bad_pointer, many_lines,
}

trim_suffix-snoc : (c : ℕ) (s : Text) → trim_suffix c (s ++ c ∷ []) ≡ s
unfolding trim_suffix
trim_suffix-snoc c [] = ground arith
trim_suffix-snoc c (x ∷ []) = ap (λ t. x ∷ t) (trim_suffix-snoc c [])
trim_suffix-snoc c (x ∷ y ∷ s) = ap (λ t. x ∷ t) (trim_suffix-snoc c (y ∷ s))

trim_suffix-none : (c : ℕ) (s : Text) → any (λ d. d == c) s ≡ false → trim_suffix c s ≡ s
unfolding trim_suffix
trim_suffix-none c [] h = refl
trim_suffix-none c (x ∷ []) h = ground (arith, h)
trim_suffix-none c (x ∷ y ∷ s) h = ap (λ t. x ∷ t) (trim_suffix-none c (y ∷ s) (ground (arith, h)))

pow_suc : (k : ℕ) → 10 ^ suc (suc k) ≡ 10 * 10 ^ suc k
pow_suc k = omega arith

length-print_fuel : (k f n : ℕ) → n < 10 ^ suc k → length (print_fuel f n) ≤ suc k
unfolding print_fuel
length-print_fuel k zero n h = omega arith
length-print_fuel zero (suc f) n h = ground (arith, h)
length-print_fuel (suc k) (suc f) n h = elim (Bool-cases (ltb n 10)) [
  | inl one ↦ rw one (omega arith)
  | inr more ↦ rw more (
      omega (
        arith,
        length-append (print_fuel f (n / 10)) ((b'0' + n % 10) ∷ []),
        length-print_fuel k f (n / 10) (omega (arith, h, pow_suc k)),
      ))
]

length-print : (n : ℕ) → n ≤ max_u64 → length (print n) ≤ 20
unfolding print
length-print n h = length-print_fuel 19 (suc n) n (omega (arith, h))

any-append : (p : ℕ → Bool) (s t : Text) → any p (s ++ t) ≡ any p s || any p t
any-append p [] t = refl
any-append p (c ∷ s) t = ground (arith, any-append p s t)

digits_apart :
    (p : ℕ → Bool) (s : Text)
    → ((c : ℕ) → is_digit c ≡ true → p c ≡ false)
    → all is_digit s ≡ true
    → any p s ≡ false
digits_apart p [] k h = refl
digits_apart p (c ∷ s) k h = ground (arith, k c, digits_apart p s k)

string_apart :
    (p : ℕ → Bool) (v : Version)
    → ((c : ℕ) → is_digit c ≡ true → p c ≡ false)
    → p b'.' ≡ false
    → any p (string v) ≡ false
unfolding string
string_apart p v k dot = ground (
  arith,
  dot,
  any-append p (print v.major) (b'.' ∷ (print v.minor ++ b'.' ∷ print v.patch)),
  any-append p (print v.minor) (b'.' ∷ print v.patch),
  digits_apart p (print v.major) k (digits-component (print v.major) (is_component-print v.major)),
  digits_apart p (print v.minor) k (digits-component (print v.minor) (is_component-print v.minor)),
  digits_apart p (print v.patch) k (digits-component (print v.patch) (is_component-print v.patch)),
)

length-string : (v : Version) → Fits v → length (string v) ≤ 62
unfolding string
length-string v f = omega (
  arith,
  length-append (print v.major) (b'.' ∷ (print v.minor ++ b'.' ∷ print v.patch)),
  length-append (print v.minor) (b'.' ∷ print v.patch),
  length-print v.major f.major,
  length-print v.minor f.minor,
  length-print v.patch f.patch,
)

-- A version whose components are 64-bit numbers is read again as it was written.
pub read_current-pointer_to :
    (v : Version) → Fits v → read_current false (some (pointer_to v)) ≡ ok v
unfolding read_current read_pointer
read_current-pointer_to v f =
    let short : ltb 64 (length (string v ++ b'\n' ∷ [])) ≡ false =
      ground (arith, length-append (string v) (b'\n' ∷ []), length-string v f) in
    rw
      (
        trim_suffix-snoc b'\n' (string v),
        trim_suffix-none b'\r' (string v)
            (string_apart (λ d. d == b'\r') v (λ c h. ground (arith, h)) refl),
        short,
        string_apart (λ c. c == b'\r' || c == b'\n') v (λ c h. ground (arith, h)) refl,
        parse_version-string v f,
      )
      refl

or_bad_version-ok :
    (r : Result VersionError Version) (v : Version) → or_bad_version r ≡ ok v → r ≡ ok v
or_bad_version-ok (ok x) v h = cc
or_bad_version-ok (err e) v h = cc

-- What is read has 64-bit components.
pub read_current-Fits :
    (failed : Bool) (file : Option Node) (v : Version) → read_current failed file ≡ ok v → Fits v
unfolding read_current read_pointer
read_current-Fits true file v h = cc
read_current-Fits false none v h = cc
read_current-Fits false (some special) v h = cc
read_current-Fits false (some (regular bytes)) v h =
    let text = trim_suffix b'\r' (trim_suffix b'\n' bytes) in
    let sized = >>=-eq-ok (refuse (ltb 64 (length bytes)) bad_pointer) _ h in
    let single =
      >>=-eq-ok (refuse (any (λ c. c == b'\r' || c == b'\n') text) many_lines) _ sized.2 in
    (string-parse_version text v (or_bad_version-ok (parse_version text) v single.2)).1

-- A pointer that was read is one that can be read.
pub read_really :
    (failed : Bool) (file : Option Node) (v : Version)
    → read_current failed file ≡ ok v
    → read_current false file ≡ ok v
unfolding read_current
read_really true file v h = cc
read_really false file v h = h
