-- ===== src/SecureStore/Append.antt =====
-- What `AppendChat` does to the rooms, and the numbering of the messages.
use spacechat.Prelude.{
  All, subst, ◌∙◌, ℕ, suc, ◌<◌, ◌≡◌, refl, ap, sym, true, false, List, [], ◌∷◌, ◌++◌, append-nil,
  arith, Text, text_eq, text_eq_iff, if◌then◌else◌, filter, filter-append, ok, Bool-cases, inl, inr,
}
use spacechat.Protocol.Frames.{Message, at}
use spacechat.SecureStore.Sealing.{Codec, Content, is_utf8}
use spacechat.SecureStore.{
  Row, Tables, Store, Fails, is_in, insert_room, aad, read_content, read_row, append_chat,
  clear_all, message_of,
}
use spacechat.SecureStore.Reading.{Shows, Reads-append}

-- Rows in the order of their ids, which lie above `bound` and below `next`.
abbrev pub Rising : {Cipher : Type 0} → ℕ → List (Row Cipher) → ℕ → Type 0
Rising bound [] next = bound < next
Rising bound (r ∷ rows) next = (bound < r.id) × Rising r.id rows next

module _ {Cipher : Type 0} where
  pub Rising-snoc :
      (bound next : ℕ) (rows : List (Row Cipher)) (r : Row Cipher)
      → r.id ≡ next
      → Rising bound rows next
      → Rising bound (rows ++ r ∷ []) (suc next)
  Rising-snoc bound next [] r e h = omega arith
  Rising-snoc bound next (x ∷ rows) r e h = (h.0, Rising-snoc x.id next rows r e h.1)

  messages-insert_room :
      (room : Text) (t : Tables Cipher) → (insert_room room t).messages ≡ t.messages
  unfolding insert_room
  messages-insert_room room t = ground arith

  next_id-insert_room : (room : Text) (t : Tables Cipher) → (insert_room room t).next_id ≡ t.next_id
  unfolding insert_room
  next_id-insert_room room t = ground arith

module _ (codec : Codec) where
  open codec use {Cipher, Nonce, seal, marshal_content, unseal-seal, unmarshal-marshal}

  -- The content that `AppendChat` seals.
  abbrev pub fresh_content : Text → Text → Text → List Text → Content
  fresh_content name body owner mentions = record {
    nickname = name;
    body = body;
    owner_id = owner;
    mentions = mentions;
    recalled = false;
  }

  unfoldable pub sealed_row : Text → ℕ → ℕ → Content → Nonce → Row Cipher
  sealed_row room id now c nonce = record {
    id = id;
    room_id = room;
    payload = seal nonce (marshal_content c) (aad codec room id (at now));
    created_at = at now;
  }

  -- A payload is read back as it was sealed.
  pub read_row-sealed :
      (room : Text) (id now : ℕ) (c : Content) (nonce : Nonce)
      → is_utf8 c ≡ true
      → read_row codec room (sealed_row room id now c nonce) ≡ ok (message_of id (at now) c)
  unfolding read_row read_content sealed_row
  read_row-sealed room id now c nonce valid = rw (
    unseal-seal nonce (marshal_content c) (aad codec room id (at now)),
    unmarshal-marshal c valid,
  )

  module _ (room name body owner : Text) (mentions : List Text) (now : ℕ) (nonce : Nonce)
      (fails : Fails) (s : Store Cipher) (m : Message) (s' : Store Cipher)
      (done : append_chat codec room name body owner mentions now nonce fails s ≡ ok (m, s')) where
    abbrev pub c : Content
    c = fresh_content name body owner mentions

    append_chat_result :
        (m ≡ message_of s.tables.next_id (at now) c)
        × (s'.tables.messages
            ≡ s.tables.messages ++ sealed_row room s.tables.next_id now c nonce ∷ [])
        × (s'.tables.next_id ≡ suc s.tables.next_id)
    unfolding append_chat sealed_row
    append_chat_result =
        ground (arith, messages-insert_room room s.tables, next_id-insert_room room s.tables)

    filter-append_chat :
        (other : Text)
        → filter (is_in other) s'.tables.messages
          ≡ filter (is_in other) s.tables.messages
            ++ (if text_eq room other
                then sealed_row room s.tables.next_id now c nonce ∷ []
                else [])
    unfolding sealed_row
    filter-append_chat other = rw (append_chat_result.1) (
        filter-append (is_in other) s.tables.messages
          (sealed_row room s.tables.next_id now c nonce ∷ []))

    -- An append that succeeds puts its message, if its texts are UTF-8, as it was returned behind those
    -- that its room shows, and what every other room shows stays as it was.
    pub append_chat-Shows :
        is_utf8 c ≡ true
        → (other : Text) (ms : List Message) → Shows codec other s ms
        → Shows codec other s' (ms ++ (if text_eq room other then m ∷ [] else []))
    append_chat-Shows valid other ms shown =
        rw (filter-append_chat other) (elim (Bool-cases (text_eq room other)) [
          | inl same ↦ rw same (
              Reads-append codec other _ _ ms (m ∷ []) shown (
                rw (append_chat_result.0, sym ((text_eq_iff room other).0 same))
                    (read_row-sealed room s.tables.next_id now c nonce valid),
                tt,
              ))
          | inr apart ↦
              rw (apart, append-nil (filter (is_in other) s.tables.messages), append-nil ms) shown
        ])

    -- When the numbers lie in order below the next one, an append that succeeds gives its message the next
    -- number, and they do so again afterwards.
    pub append_chat-Rising :
        Rising 0 s.tables.messages s.tables.next_id
        → Rising 0 s'.tables.messages s'.tables.next_id
          × (m.id ≡ s.tables.next_id)
          × (m.id < s'.tables.next_id)
    unfolding sealed_row
    append_chat-Rising rising = (
      rw (append_chat_result.1, append_chat_result.2)
          (Rising-snoc 0 s.tables.next_id s.tables.messages _ refl rising),
      ap (λ x. x.id) append_chat_result.0,
      omega (arith, ap (λ (x : Message). x.id) append_chat_result.0, append_chat_result.2),
    )

-- The end of the messages.
module _ {Cipher : Type 0} where
  clear_all_result :
      (fresh : Text) (fails : Fails) (s : Store Cipher) (n : ℕ) (s' : Store Cipher)
      → clear_all fresh fails s ≡ ok (n, s')
      → (s'.tables.messages ≡ []) × (s'.tables.next_id ≡ s.tables.next_id)
  unfolding clear_all
  clear_all_result fresh fails s n s' done = ground arith

  Rising-bound : (bound next : ℕ) (rows : List (Row Cipher)) → Rising bound rows next → bound < next
  Rising-bound bound next [] h = h
  Rising-bound bound next (r ∷ rows) h = omega (arith, h.0, Rising-bound r.id next rows h.1)

  Rising-All :
      (bound next : ℕ) (rows : List (Row Cipher))
      → Rising bound rows next
      → All (λ r. r.id < next) rows
  Rising-All bound next [] h = tt
  Rising-All bound next (r ∷ rows) h =
      (Rising-bound r.id next rows h.1, Rising-All r.id next rows h.1)

module _ (codec : Codec) (room name body owner : Text) (mentions : List Text) (now : ℕ) where
  open codec use {Cipher, Nonce}

  -- When the numbers lie in order below the next one, and the rooms are cleared, and then a message
  -- whose texts are UTF-8 is appended: its number is above that of every message there was before, of
  -- whatever room; its room shows this message alone, and every other room shows none.
  pub append_chat-clear_all :
      (nonce : Nonce) (fresh : Text) (fails again : Fails) (s s' s'' : Store Cipher) (n : ℕ)
      (m : Message)
      → Rising 0 s.tables.messages s.tables.next_id
      → clear_all fresh fails s ≡ ok (n, s')
      → append_chat codec room name body owner mentions now nonce again s' ≡ ok (m, s'')
      → is_utf8 (fresh_content codec name body owner mentions) ≡ true
      → (other : Text)
      → All (λ r. r.id < m.id) s.tables.messages
        × Shows codec other s'' (if text_eq room other then m ∷ [] else [])
  append_chat-clear_all nonce fresh fails again s s' s'' n m rising cleared done valid other =
      let kept = clear_all_result fresh fails s n s' cleared in
      let start : Rising 0 s'.tables.messages s'.tables.next_id =
        rw (kept.0, kept.1) (Rising-bound 0 s.tables.next_id s.tables.messages rising) in
      let numbered =
        append_chat-Rising codec room name body owner mentions now nonce again s' m s'' done
          start in
      (
        subst (λ k. All (λ (r : Row Cipher). r.id < k) s.tables.messages)
            (sym (numbered.1 ∙ kept.1)) (Rising-All 0 s.tables.next_id s.tables.messages rising),
        append_chat-Shows codec room name body owner mentions now nonce again s' m s'' done valid
            other [] (rw (kept.0) tt),
      )
