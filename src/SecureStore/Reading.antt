-- ===== src/SecureStore/Reading.antt =====
-- Reading the rows of a room, and the page of what was read.
use mathlib.Core.List.{reverse, reverse-cons}
use spacechat.Prelude.{
  ℕ, zero, suc, ◌+◌, ◌≡◌, refl, ap, ◌∙◌, Bool, false, List, [], ◌∷◌, ◌++◌, arith, Text, filter,
  take, ok, Bool-cases, inl, inr,
}
use spacechat.Prelude.Int.{ℤ}
use spacechat.Protocol.Frames.{Message, page_size}
use spacechat.Pages.{selects, query, is_ascending, page_of}
use spacechat.SecureStore.Sealing.{Codec}
use spacechat.SecureStore.{Row, Store, Fails, is_in, read_row, read_rows, page}

module _ (codec : Codec) (room : Text) where
  open codec use {Cipher}

  -- The rows read as the messages, one by one.
  abbrev pub Reads : List (Row Cipher) → List Message → Type 0
  Reads [] [] = Unit {0}
  Reads (r ∷ rows) (m ∷ ms) = (read_row codec room r ≡ ok m) × Reads rows ms
  Reads _ _ = ⊥

  pub Reads→read_rows :
      (rows : List (Row Cipher)) (ms : List Message)
      → Reads rows ms
      → read_rows codec room rows ≡ ok ms
  unfolding read_rows
  Reads→read_rows [] [] h = refl
  Reads→read_rows [] (m ∷ ms) h = absurd h
  Reads→read_rows (r ∷ rows) [] h = absurd h
  Reads→read_rows (r ∷ rows) (m ∷ ms) h = rw (h.0, Reads→read_rows rows ms h.1)

  pub Reads-id : (r : Row Cipher) (m : Message) → read_row codec room r ≡ ok m → m.id ≡ r.id
  unfolding read_row
  Reads-id r m h = ground arith

  -- A first row reads as a first message.
  pub Reads-cons :
      (r : Row Cipher) (rows : List (Row Cipher)) (ms : List Message)
      → Reads (r ∷ rows) ms
      → (m : Message) × (rest : List Message) × (ms ≡ m ∷ rest)
        × (read_row codec room r ≡ ok m)
        × Reads rows rest
  Reads-cons r rows [] h = absurd h
  Reads-cons r rows (m ∷ ms) h = (m, ms, refl, h.0, h.1)

  pub Reads-append :
      (xs ys : List (Row Cipher)) (ms ns : List Message)
      → Reads xs ms
      → Reads ys ns
      → Reads (xs ++ ys) (ms ++ ns)
  Reads-append [] ys [] ns h k = k
  Reads-append [] ys (m ∷ ms) ns h k = absurd h
  Reads-append (x ∷ xs) ys [] ns h k = absurd h
  Reads-append (x ∷ xs) ys (m ∷ ms) ns h k = (h.0, Reads-append xs ys ms ns h.1 k)

  pub Reads-filter :
      (p : ℕ → Bool) (rows : List (Row Cipher)) (ms : List Message)
      → Reads rows ms
      → Reads (filter (λ r. p r.id) rows) (filter (λ m. p m.id) ms)
  Reads-filter p [] [] h = tt
  Reads-filter p [] (m ∷ ms) h = absurd h
  Reads-filter p (r ∷ rows) [] h = absurd h
  Reads-filter p (r ∷ rows) (m ∷ ms) h =
      let same = ap p (Reads-id r m h.0) in
      elim (Bool-cases (p r.id)) [
        | inl in_range ↦ rw (in_range, same ∙ in_range) (h.0, Reads-filter p rows ms h.1)
        | inr out ↦ rw (out, same ∙ out) (Reads-filter p rows ms h.1)
      ]

  pub Reads-take :
      (n : ℕ) (rows : List (Row Cipher)) (ms : List Message)
      → Reads rows ms
      → Reads (take n rows) (take n ms)
  Reads-take zero rows ms h = tt
  Reads-take (suc n) [] [] h = tt
  Reads-take (suc n) [] (m ∷ ms) h = absurd h
  Reads-take (suc n) (r ∷ rows) [] h = absurd h
  Reads-take (suc n) (r ∷ rows) (m ∷ ms) h = (h.0, Reads-take n rows ms h.1)

  pub Reads-reverse :
      (rows : List (Row Cipher)) (ms : List Message)
      → Reads rows ms
      → Reads (reverse rows) (reverse ms)
  Reads-reverse [] [] h = tt
  Reads-reverse [] (m ∷ ms) h = absurd h
  Reads-reverse (r ∷ rows) [] h = absurd h
  Reads-reverse (r ∷ rows) (m ∷ ms) h =
      rw (reverse-cons r rows, reverse-cons m ms)
        (Reads-append (reverse rows) (r ∷ []) (reverse ms) (m ∷ []) (Reads-reverse rows ms h.1)
          (h.0, tt))

  -- What a room shows: the messages that its rows read as, in the order of their ids.
  abbrev pub Shows : Store Cipher → List Message → Type 0
  Shows s ms = Reads (filter (is_in room) s.tables.messages) ms

  Reads-query :
      (before after : ℤ) (through : ℕ) (rows : List (Row Cipher)) (ms : List Message)
      → Reads rows ms
      → Reads
          (query (λ r. r.id) before after through rows)
          (query (λ m. m.id) before after through ms)
  unfolding query
  Reads-query before after through rows ms h =
      Reads-take (page_size + 1) _ _ (elim (Bool-cases (is_ascending before after)) [
        | inl up ↦ rw up (Reads-filter (selects before after through) rows ms h)
        | inr down ↦
            rw down (Reads-reverse _ _ (Reads-filter (selects before after through) rows ms h))
      ])

  -- A page of a room is the page of the messages that the room shows, if the database answers.
  pub page-Shows :
      (before after : ℤ) (through : ℕ) (fails : Fails) (s : Store Cipher) (ms : List Message)
      → Shows s ms
      → fails 0 ≡ false
      → fails 1 ≡ false
      → page codec room before after through fails s ≡ ok (page_of before after through ms)
  unfolding page page_of
  page-Shows before after through fails s ms shown f0 f1 =
      rw (f0, Reads→read_rows _ _ (Reads-query before after through _ ms shown), f1)
