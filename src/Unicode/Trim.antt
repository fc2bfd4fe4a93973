-- ===== src/Unicode/Trim.antt =====
-- Laws of trimming.
use spacechat.Prelude.{
  ℕ, ◌≡◌, refl, true, false, Bool, ◌&&◌, [], ◌∷◌, arith, Text, all, Bool-cases, inl, inr, ◌↔◌,
}
use spacechat.Unicode.{is_space, trim_left, push_unless_blank, trim_right, trim_space}

-- Trimming leaves nothing exactly of a blank text.
is_empty : Text → Bool
is_empty [] = true
is_empty (c ∷ s) = false

empty-push_unless_blank :
    (c : ℕ) (s : Text) → is_empty (push_unless_blank c s) ≡ is_space c && is_empty s
unfolding push_unless_blank is_empty
empty-push_unless_blank c [] = ground arith
empty-push_unless_blank c (d ∷ s) = ground arith

empty-trim_right : (s : Text) → is_empty (trim_right s) ≡ all is_space s
unfolding trim_right
empty-trim_right [] = unfold is_empty in refl
empty-trim_right (c ∷ s) =
    ground (arith, empty-push_unless_blank c (trim_right s), empty-trim_right s)

empty-trim_space : (s : Text) → is_empty (trim_right (trim_left s)) ≡ all is_space s
unfolding trim_left
empty-trim_space [] = empty-trim_right []
empty-trim_space (c ∷ s) = ground (arith, empty-trim_space s, empty-trim_right (c ∷ s))

empty_iff : (s : Text) → (s ≡ []) ↔ (is_empty s ≡ true)
unfolding is_empty
empty_iff [] = ground arith
empty_iff (c ∷ s) = ground arith

pub trim_space-nil : (s : Text) → (trim_space s ≡ []) ↔ (all is_space s ≡ true)
unfolding trim_space
trim_space-nil s = ground (arith, empty_iff (trim_right (trim_left s)), empty-trim_space s)

-- Trimming once is enough.
trim_right-push :
    (c : ℕ) (s : Text)
    → trim_right s ≡ s
    → trim_right (push_unless_blank c s) ≡ push_unless_blank c s
unfolding trim_right push_unless_blank
trim_right-push c [] h = ground arith
trim_right-push c (d ∷ s) h = rw h refl

pub trim_right_idem : (s : Text) → trim_right (trim_right s) ≡ trim_right s
unfolding trim_right
trim_right_idem [] = refl
trim_right_idem (c ∷ s) = trim_right-push c (trim_right s) (trim_right_idem s)

trim_left-push :
    (c : ℕ) (s : Text)
    → is_space c ≡ false
    → trim_left (push_unless_blank c s) ≡ push_unless_blank c s
unfolding push_unless_blank trim_left
trim_left-push c [] h = ground arith
trim_left-push c (d ∷ s) h = ground arith

pub trim_space_idem : (s : Text) → trim_space (trim_space s) ≡ trim_space s
unfolding trim_space trim_left
trim_space_idem [] = unfold trim_right in refl
trim_space_idem (c ∷ s) = elim (Bool-cases (is_space c)) [
  | inl blank ↦ rw blank (trim_space_idem s)
  | inr solid ↦ rw solid (
      unfold trim_right in
      rw (trim_left-push c (trim_right s) solid)
        (trim_right-push c (trim_right s) (trim_right_idem s)))
]
