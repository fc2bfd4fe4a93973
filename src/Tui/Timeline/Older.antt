-- ===== src/Tui/Timeline/Older.antt =====
-- A page of older messages goes before those on the screen.
use spacechat.Prelude.{
  ℕ, ◌≡◌, ◌<◌, ◌≤◌, refl, sym, ap, ap₂, ◌∙◌, true, false, ◌||◌, List, [], ◌∷◌, ◌++◌, Option, none,
  some, arith, ltb, ◌==◌, if◌then◌else◌, All, Bool-cases, inl, inr, subst,
}
use spacechat.Protocol.Frames.{Message}
use spacechat.Pages.{message_at}
use spacechat.Tui.Timeline.{has_id, merge}
use spacechat.Tui.Timeline.Laws.{
  Unique, Increasing, replaced, latest, merge-latest, above-has_id, Increasing-Unique,
  message_at-none,
}

message_at-first :
    (id : ℕ) (m : Message) (ms : List Message) → m.id ≡ id → message_at id (m ∷ ms) ≡ some m
message_at-first id m ms e = ground arith

message_at-below : (id : ℕ) (ms : List Message) → All (λ x. id < x.id) ms → message_at id ms ≡ none
message_at-below id ms a = message_at-none id ms (above-has_id id ms a)

above_trans :
    (a b : ℕ) (ms : List Message) → a ≤ b → All (λ x. b < x.id) ms → All (λ x. a < x.id) ms
above_trans a b [] h all = tt
above_trans a b (m ∷ ms) h all = (omega (arith, all.0), above_trans a b ms h all.1)

first-le :
    (x y : Message) (xs ys : List Message)
    → Increasing (y ∷ ys)
    → message_at x.id (x ∷ xs) ≡ message_at x.id (y ∷ ys)
    → y.id ≤ x.id
first-le x y xs ys j h = elim (Bool-cases (ltb x.id y.id)) [
  | inl early ↦
      let gone =
        message_at-below x.id (y ∷ ys)
          (ground arith, above_trans x.id y.id ys (ground arith) j.0) in
      absurd (ground (arith, h, gone, message_at-first x.id x xs refl))
  | inr late ↦ ground arith
]

-- A list in the order of its ids is known by what it has at each id.
pub Increasing-ext :
    (xs ys : List Message)
    → Increasing xs
    → Increasing ys
    → ((id : ℕ) → message_at id xs ≡ message_at id ys)
    → xs ≡ ys
Increasing-ext [] [] i j h = refl
Increasing-ext [] (y ∷ ys) i j h = ground (arith, h y.id)
Increasing-ext (x ∷ xs) [] i j h = ground (arith, h x.id)
Increasing-ext (x ∷ xs) (y ∷ ys) i j h =
    let ids : x.id ≡ y.id =
      omega (arith, first-le x y xs ys j (h x.id), first-le y x ys xs i (sym (h y.id))) in
    let same : x ≡ y = ground (arith, h x.id, ids) in
    ap₂ (λ a b. a ∷ b) same
      (Increasing-ext xs ys i.1 j.1 λ id. elim (Bool-cases (x.id == id)) [
        | inl hit ↦
            ground (arith, hit, ids, message_at-below x.id xs i.0, message_at-below y.id ys j.0)
        | inr miss ↦ ground (arith, miss, ids, h id)
      ])

has_id-append :
    (id : ℕ) (xs ys : List Message) → has_id id (xs ++ ys) ≡ has_id id xs || has_id id ys
has_id-append id [] ys = refl
has_id-append id (x ∷ xs) ys = ground (arith, has_id-append id xs ys)

message_at-append :
    (id : ℕ) (xs ys : List Message)
    → message_at id (xs ++ ys) ≡ (if has_id id xs then message_at id xs else message_at id ys)
message_at-append id [] ys = refl
message_at-append id (x ∷ xs) ys = ground (arith, message_at-append id xs ys)

latest-none :
    (id : ℕ) (old : Option Message) (xs : List Message)
    → has_id id xs ≡ false
    → latest id old xs ≡ old
unfolding latest
latest-none id old [] h = refl
latest-none id old (x ∷ xs) h = ground (arith, latest-none id old xs)

latest-new : (id : ℕ) (xs : List Message) → Unique xs → latest id none xs ≡ message_at id xs
unfolding latest replaced
latest-new id [] u = refl
latest-new id (x ∷ xs) u = elim (Bool-cases (x.id == id)) [
  | inl hit ↦
      rw hit
        (latest-none id (some x) xs (subst (λ n. has_id n xs ≡ false) (ground (arith, hit)) u.0))
  | inr miss ↦ rw miss (latest-new id xs u.1)
]

Unique-append_left : (xs ys : List Message) → Unique (xs ++ ys) → Unique xs
Unique-append_left [] ys u = tt
Unique-append_left (x ∷ xs) ys u =
    (ground (arith, has_id-append x.id xs ys, u.0), Unique-append_left xs ys u.1)

Unique-apart :
    (id : ℕ) (xs ys : List Message) → Unique (xs ++ ys) → has_id id xs ≡ true → has_id id ys ≡ false
Unique-apart id [] ys u h = cc
Unique-apart id (x ∷ xs) ys u h = elim (Bool-cases (x.id == id)) [
  | inl hit ↦ ground (
    arith,
    hit,
    u.0,
    subst (λ n. has_id n (xs ++ ys) ≡ false) {x = x.id} {y = id} (ground (arith, hit)) u.0,
    has_id-append id xs ys,
  )
  | inr miss ↦ Unique-apart id xs ys u.1 (ground (arith, miss, h))
]

pub Increasing-append_right : (xs ys : List Message) → Increasing (xs ++ ys) → Increasing ys
Increasing-append_right [] ys i = i
Increasing-append_right (x ∷ xs) ys i = Increasing-append_right xs ys i.1

-- Messages that stand before those on the screen are put before them.
pub merge-append : (xs ys : List Message) → Increasing (xs ++ ys) → merge xs ys ≡ xs ++ ys
merge-append xs ys i =
    let u = Increasing-Unique (xs ++ ys) i in
    let merged = merge-latest xs ys (Increasing-append_right xs ys i) in
    Increasing-ext (merge xs ys) (xs ++ ys) merged.0 i λ id.
      merged.1 id ∙ elim (Bool-cases (has_id id xs)) [
        | inl there ↦
            ap (λ o. latest id o xs) (message_at-none id ys (Unique-apart id xs ys u there))
            ∙ latest-new id xs (Unique-append_left xs ys u)
            ∙ sym (message_at-append id xs ys ∙ rw there refl)
        | inr missing ↦
            latest-none id (message_at id ys) xs missing
            ∙ sym (message_at-append id xs ys ∙ rw missing refl)
      ]
