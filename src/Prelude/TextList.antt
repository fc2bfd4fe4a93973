-- ===== src/Prelude/TextList.antt =====
-- Lists of texts: membership by a test, and lists without repetition.
use mathlib.Core.Path.{◌≡◌, refl}
use mathlib.Core.Bool.{Bool, false, ◌||◌}
use mathlib.Core.List.{List, [], ◌∷◌, ◌++◌}
use native.Mathlib.Omega.{arith}
use spacechat.Prelude.Texts.{Text, text_eq, text_eq_iff}
use spacechat.Prelude.Lists.{any}

-- `slices.Contains`
abbrev pub contains : List Text → Text → Bool
contains names name = any (λ n. text_eq n name) names

abbrev pub Distinct : List Text → Type 0
Distinct [] = Unit {0}
Distinct (n ∷ ns) = (contains ns n ≡ false) × Distinct ns

contains-snoc :
    (ns : List Text) (m n : Text) → contains (ns ++ m ∷ []) n ≡ contains ns n || text_eq m n
contains-snoc [] m n = ground arith
contains-snoc (k ∷ ns) m n = ground (arith, contains-snoc ns m n)

pub Distinct-snoc :
    (ns : List Text) (m : Text) → Distinct ns → contains ns m ≡ false → Distinct (ns ++ m ∷ [])
Distinct-snoc [] m d h = (refl, tt)
Distinct-snoc (n ∷ ns) m d h = (
  ground (arith, contains-snoc ns m n, text_eq_iff m n, text_eq_iff n m),
  Distinct-snoc ns m d.1 (ground arith),
)
