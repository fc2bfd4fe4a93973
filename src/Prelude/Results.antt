-- ===== src/Prelude/Results.antt =====
-- A Go result `(value, error)`: the value, or the error that comes instead of it.
use mathlib.Core.Path.{◌≡◌, refl}
use mathlib.Core.Bool.{Bool, true, false}
use mathlib.Core.Logic.{◌⊎◌, inl, inr}
use mathlib.Core.Option.{Option, none, some}

pub data Result {ℓ κ} (E : Type ℓ) (A : Type κ) : Type (ℓ ⊔ κ) where
  ok : A → Result E A
  err : E → Result E A

module _ {ℓ} {E : Type ℓ} where
  -- `if refuse { return error }`
  abbrev pub refuse : Bool → E → Result E (Unit {0})
  refuse true e = err e
  refuse false e = ok tt

  abbrev pub or_error {κ} : {A : Type κ} → Option A → E → Result E A
  or_error none e = err e
  or_error (some a) e = ok a

  -- `result, err := first; if err != nil { return err }`
  infixl 5 ◌>>=◌ ◌>>◌
  abbrev pub ◌>>=◌ {κ ι} : {B : Type κ} {C : Type ι} → Result E B → (B → Result E C) → Result E C
  err failed >>= next = err failed
  ok value >>= next = next value

  -- The same when there is only an error to look at.
  abbrev pub ◌>>◌ {κ} : {C : Type κ} → Result E (Unit {0}) → Result E C → Result E C
  first >> next = first >>= (λ _. next)

  -- What a chain that gives a value went through.
  pub >>=-eq-ok {κ ι} :
      {B : Type κ} {C : Type ι} (first : Result E B) (next : B → Result E C) {c : C}
      → (first >>= next) ≡ ok c
      → (b : B) × (first ≡ ok b) × (next b ≡ ok c)
  >>=-eq-ok (err failed) next done = cc
  >>=-eq-ok (ok value) next done = (value, refl, done)

  pub refuse-eq-ok : (b : Bool) (e : E) {u : Unit {0}} → refuse b e ≡ ok u → b ≡ false
  refuse-eq-ok true e h = cc
  refuse-eq-ok false e h = refl

  pub ok_inj {κ} : {A : Type κ} {a b : A} → ◌≡◌ {A = Result E A} (ok a) (ok b) → a ≡ b
  ok_inj e = cc

  pub or_error-eq-ok {κ} :
      {A : Type κ} (o : Option A) (e : E) {a : A} → or_error o e ≡ ok a → o ≡ some a
  or_error-eq-ok none e h = cc
  or_error-eq-ok (some a) e h = cc

  pub Result-cases {κ} :
      {A : Type κ} (m : Result E A) → ((a : A) × (m ≡ ok a)) ⊎ ((e : E) × (m ≡ err e))
  Result-cases (ok a) = inl (a, refl)
  Result-cases (err e) = inr (e, refl)

  -- What a value satisfies, if there is one.
  abbrev pub Lands {κ ι} : {A : Type κ} → (A → Type ι) → Result E A → Type ι
  Lands Q (ok a) = Q a
  Lands Q (err e) = Unit
