-- ===== src/Pages/Bounds.antt =====
-- One row more than a page is asked for, so that its presence says that there is more.
use spacechat.Prelude.{
  ℕ, zero, suc, ◌+◌, ◌≤◌, ◌≡◌, refl, ap, Bool, List, [], ◌∷◌, arith, ltb, if◌then◌else◌, take,
  length, length-take, length-reverse, reverse, filter, Bool-cases, inl, inr,
}
use spacechat.Prelude.Int.{ℤ}
use spacechat.Protocol.Frames.{Message, page_size}
use spacechat.Pages.{is_ascending, selects, query, finish, page_of}

module _ {ℓ} {A : Type ℓ} where
  take-take-suc : (n : ℕ) (xs : List A) → take n (take (suc n) xs) ≡ take n xs
  take-take-suc zero xs = refl
  take-take-suc (suc n) [] = refl
  take-take-suc (suc n) (x ∷ xs) = ap (◌∷◌ x) (take-take-suc n xs)

  pub more-take-suc : (n : ℕ) (xs : List A) → ltb n (length (take (suc n) xs)) ≡ ltb n (length xs)
  more-take-suc n xs = ground (arith, length-take (suc n) xs)

  take-suc_short : (n : ℕ) (xs : List A) → length xs ≤ n → take (suc n) xs ≡ take n xs
  take-suc_short zero [] h = refl
  take-suc_short zero (x ∷ xs) h = absurd (omega arith)
  take-suc_short (suc n) [] h = refl
  take-suc_short (suc n) (x ∷ xs) h = ap (◌∷◌ x) (take-suc_short n xs (omega arith))

  -- What is kept of the rows is the first page.
  pub cut-take-suc :
      (n : ℕ) (xs : List A)
      → (if ltb n (length (take (suc n) xs)) then take n (take (suc n) xs) else take (suc n) xs)
        ≡ take n xs
  cut-take-suc n xs = elim (Bool-cases (ltb n (length xs))) [
    | inl more ↦ rw (more-take-suc n xs, more) (take-take-suc n xs)
    | inr fits ↦ rw (more-take-suc n xs, fits) (take-suc_short n xs (ground arith))
  ]

-- A page of the rows of a query is cut from all the rows that the query's conditions select.
pub finish_cut :
    (ascending : Bool) (through : ℕ) (found : List Message)
    → finish ascending through (take (page_size + 1) found) ≡ record {
      messages = if ascending then take page_size found else reverse (take page_size found);
      has_more = ltb page_size (length found);
      through_id = through;
    }
unfolding finish
finish_cut ascending through found =
    rw (cut-take-suc page_size found, more-take-suc page_size found)

length-take_le : (n : ℕ) (xs : List Message) → length (take n xs) ≤ n
length-take_le n xs = omega (arith, length-take n xs)

-- No page holds more than 100 messages, whatever the cursors are.
pub length-page_of :
    (before after : ℤ) (through : ℕ) (ms : List Message)
    → length (page_of before after through ms).messages ≤ page_size
unfolding page_of query
length-page_of before after through ms =
    let ascending = is_ascending before after in
    let found : List Message = filter (λ m. selects before after through m.id) ms in
    rw finish_cut (elim (Bool-cases ascending) [
      | inl up ↦ rw up (length-take_le page_size found)
      | inr down ↦
          rw (down, length-reverse (take page_size (reverse found)))
            (length-take_le page_size (reverse found))
    ])
