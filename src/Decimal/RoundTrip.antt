-- ===== src/Decimal/RoundTrip.antt =====
-- A number is read back from its print, and a text without leading zeros is the print of its value.
use spacechat.Prelude.{
  ℕ, zero, suc, ◌+◌, ◌-◌, ◌*◌, ◌/◌, ◌%◌, ◌≤◌, ◌<◌, ◌≡◌, refl, sym, ◌∙◌, ap, true, [], ◌∷◌, ◌++◌,
  append_assoc, append-nil, none, some, arith, Text, ltb, all, if◌then◌else◌, Bool-cases, inl, inr,
}
use spacechat.Decimal.{max_u64, is_digit, print_fuel, print, value, parse_uint, is_component}

value-append : (n : ℕ) (s t : Text) → value n (s ++ t) ≡ value (value n s) t
value-append n [] t = refl
value-append n (c ∷ s) t = value-append (n * 10 + (c - b'0')) s t

all-append :
    (s t : Text) → all is_digit s ≡ true → all is_digit t ≡ true → all is_digit (s ++ t) ≡ true
all-append [] t p q = q
all-append (c ∷ s) t p q = ground (arith, all-append s t)

value-print_fuel : (f n : ℕ) → n < f → value 0 (print_fuel f n) ≡ n
unfolding print_fuel
value-print_fuel zero n h = elim h [ ]
value-print_fuel (suc f) n h = ground (
  arith,
  value-append 0 (print_fuel f (n / 10)) ((b'0' + n % 10) ∷ []),
  value-print_fuel f (n / 10),
)

digits-print_fuel : (f n : ℕ) → all is_digit (print_fuel f n) ≡ true
unfolding print_fuel
digits-print_fuel zero n = refl
digits-print_fuel (suc f) n =
    ground (
      arith,
      all-append (print_fuel f (n / 10)) ((b'0' + n % 10) ∷ []),
      digits-print_fuel f (n / 10),
    )

-- Enough fuel gives the same text as any other enough fuel.
print_fuel_enough : (f g n : ℕ) → n < f → n < g → print_fuel f n ≡ print_fuel g n
unfolding print_fuel
print_fuel_enough zero g n h k = elim h [ ]
print_fuel_enough (suc f) zero n h k = elim k [ ]
print_fuel_enough (suc f) (suc g) n h k = ground (arith, print_fuel_enough f g (n / 10))

pub value-print : (n : ℕ) → value 0 (print n) ≡ n
unfolding print
value-print n = value-print_fuel (suc n) n (omega arith)

print_fuel_round :
    (f m : ℕ) → 10 ≤ m → print_fuel (suc f) m ≡ print_fuel f (m / 10) ++ (b'0' + m % 10) ∷ []
unfolding print_fuel
print_fuel_round f m h = ground arith

print_step : (m : ℕ) → 10 ≤ m → print m ≡ print (m / 10) ++ (b'0' + m % 10) ∷ []
unfolding print
print_step m h =
    print_fuel_round m m h
    ∙ ap (λ s. s ++ (b'0' + m % 10) ∷ [])
        (print_fuel_enough m (suc (m / 10)) (m / 10) (omega arith) (omega arith))

-- One more digit is one more character.
print_snoc : (n c : ℕ) → 0 < n → is_digit c ≡ true → print (n * 10 + (c - b'0')) ≡ print n ++ c ∷ []
print_snoc n c h d = ground (arith, print_step (n * 10 + (c - b'0')))

print-value : (n : ℕ) (s : Text) → 0 < n → all is_digit s ≡ true → print (value n s) ≡ print n ++ s
print-value n [] h d = sym (append-nil (print n))
print-value n (c ∷ s) h d = ground (
  arith,
  print_snoc n c h,
  print-value (n * 10 + (c - b'0')) s,
  append_assoc (print n) (c ∷ []) s,
)

print_digit : (n : ℕ) → n < 10 → print n ≡ (b'0' + n) ∷ []
unfolding print print_fuel
print_digit n h = ground arith

-- A component of a version is the print of its value: it has no leading zero.
pub print-value_component : (s : Text) → is_component s ≡ true → print (value 0 s) ≡ s
unfolding is_component
print-value_component [] h = cc
print-value_component (c ∷ []) h = ground (arith, print_digit (c - b'0'))
print-value_component (c ∷ d ∷ s) h =
    ground (arith, print_digit (c - b'0'), print-value (c - b'0') (d ∷ s))

is_component_snoc :
    (s : Text) (c : ℕ)
    → is_component s ≡ true
    → 0 < value 0 s
    → is_digit c ≡ true
    → is_component (s ++ c ∷ []) ≡ true
unfolding is_component
is_component_snoc [] c h p d = cc
is_component_snoc (x ∷ []) c h p d = ground arith
is_component_snoc (x ∷ y ∷ s) c h p d = ground (arith, all-append (y ∷ s) (c ∷ []))

is_component-print_fuel : (f n : ℕ) → n < f → is_component (print_fuel f n) ≡ true
unfolding print_fuel
is_component-print_fuel zero n h = elim h [ ]
is_component-print_fuel (suc f) n h = elim (Bool-cases (ltb n 10)) [
  | inl small ↦ rw small (unfold is_component in ground arith)
  | inr large ↦ rw large (
      is_component_snoc (print_fuel f (n / 10)) (b'0' + n % 10)
        (is_component-print_fuel f (n / 10) (ground arith))
        (ground (arith, value-print_fuel f (n / 10))) (ground arith))
]

-- A number prints without leading zeros.
pub is_component-print : (n : ℕ) → is_component (print n) ≡ true
unfolding print
is_component-print n = is_component-print_fuel (suc n) n (omega arith)

-- What is read of a component is its value, if that fits 64 bits.
pub parse_uint-component :
    (s : Text)
    → is_component s ≡ true
    → parse_uint s ≡ (if ltb max_u64 (value 0 s) then none else some (value 0 s))
unfolding is_component parse_uint
parse_uint-component [] h = cc
parse_uint-component (c ∷ []) h = ground arith
parse_uint-component (c ∷ d ∷ s) h = ground arith

pub parse_uint-print : (n : ℕ) → n ≤ max_u64 → parse_uint (print n) ≡ some n
parse_uint-print n h =
    ground (arith, parse_uint-component (print n) (is_component-print n), value-print n)

pub digits-component : (s : Text) → is_component s ≡ true → all is_digit s ≡ true
unfolding is_component
digits-component [] h = cc
digits-component (c ∷ []) h = ground arith
digits-component (c ∷ d ∷ s) h = ground arith
