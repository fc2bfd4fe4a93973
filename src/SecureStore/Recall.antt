-- ===== src/SecureStore/Recall.antt =====
-- The row that `Recall` rewrites, as its room and the other rooms show it.
use spacechat.Prelude.{
  ℕ, ◌≤◌, ◌≡◌, ap, ◌∙◌, sym, Bool, true, false, ◌&&◌, List, [], ◌∷◌, map, some, arith, Text,
  text_eq, text_eq_iff, ◌==◌, if◌then◌else◌, filter, ok, Bool-cases, inl, inr, Option-cases, All,
  subst,
}
use spacechat.Protocol.Frames.{Message}
use spacechat.Pages.{message_at}
use spacechat.Unicode.{valid_string}
use spacechat.SecureStore.Sealing.{Codec, Content, is_utf8}
use spacechat.SecureStore.{
  Row, is_in, aad, read_content, read_row, message_of, find_row, update_payload,
}
use spacechat.SecureStore.Reading.{Reads, Reads-id, Reads-cons}
use spacechat.SecureStore.Append.{Rising}

-- A message without its content.
abbrev pub blank : ℕ → Message → Message
blank id m = if m.id == id then record m { body = []; mentions = []; recalled = true } else m

module _ {Cipher : Type 0} (room : Text) (id : ℕ) where
  abbrev pub hits : Row Cipher → Bool
  hits x = is_in room x && x.id == id

  pub find_row-hits :
      (rows : List (Row Cipher)) (r : Row Cipher) → find_row room id rows ≡ some r → hits r ≡ true
  unfolding find_row
  find_row-hits [] r e = cc
  find_row-hits (x ∷ rows) r e = elim (Bool-cases (hits x)) [
    | inl hit ↦ ground arith
    | inr miss ↦ find_row-hits rows r (ground arith)
  ]

  -- Ids are unique, so no other row is hit.
  no_hits_above :
      (bound next : ℕ) (rows : List (Row Cipher)) (r : Row Cipher)
      → id ≤ bound
      → Rising bound rows next
      → All (λ x. hits x ≡ true → x ≡ r) rows
  no_hits_above bound next [] r h s = tt
  no_hits_above bound next (x ∷ rows) r h s =
      (λ hit. ground arith, no_hits_above x.id next rows r (omega arith) s.1)

  pub hits_unique :
      (bound next : ℕ) (rows : List (Row Cipher)) (r : Row Cipher)
      → Rising bound rows next
      → find_row room id rows ≡ some r
      → All (λ x. hits x ≡ true → x ≡ r) rows
  unfolding find_row
  hits_unique bound next [] r s e = tt
  hits_unique bound next (x ∷ rows) r s e = elim (Bool-cases (hits x)) [
    | inl hit ↦ (λ _. ground arith, no_hits_above x.id next rows r (ground arith) s.1)
    | inr miss ↦ (λ hit. cc, hits_unique x.id next rows r s.1 (ground arith))
  ]

module _ (codec : Codec) (room : Text) where
  open codec use {
    Cipher, Nonce, seal, unseal, marshal_content, unmarshal_content, unseal-seal, unmarshal-marshal,
    unmarshal-valid,
  }

  -- The row that a recall finds is a message that the room shows.
  pub find_row-Shows :
      (id : ℕ) (rows : List (Row Cipher)) (ms : List Message) (r : Row Cipher)
      → Reads codec room (filter (is_in room) rows) ms
      → find_row room id rows ≡ some r
      → (old : Message) × (message_at id ms ≡ some old) × (read_row codec room r ≡ ok old)
  unfolding find_row
  find_row-Shows id [] ms r h e = cc
  find_row-Shows id (x ∷ rows) ms r h e = elim (Bool-cases (is_in room x)) [
    | inl inside ↦
        let (m, rest, split, head, tail) =
          Reads-cons codec room x (filter (is_in room) rows) ms (rw inside at h) in
        let same = Reads-id codec room x m head in
        elim (Bool-cases (x.id == id)) [
          | inl hit ↦ (m, rw split (ground arith), ground arith)
          | inr miss ↦
              let (old, found, reads) = find_row-Shows id rows rest r tail (ground arith) in
              (old, rw split (ground arith), reads)
        ]
    | inr out ↦ find_row-Shows id rows ms r (rw out at h) (ground arith)
  ]

  -- The payload that a recall writes.
  abbrev pub blank_content : Content → Content
  blank_content c = record c { body = []; mentions = []; recalled = true }

  read_content-valid :
      (r : Row Cipher) (c : Content) → read_content codec room r ≡ ok c → is_utf8 c ≡ true
  unfolding read_content
  read_content-valid r c e =
      elim (Option-cases (unseal r.payload (aad codec room r.id r.created_at))) [
        | inl shut ↦ ground arith
        | inr (plain, opened) ↦ unmarshal-valid plain {c = c} (ground arith)
      ]

  blank-valid : (c : Content) → is_utf8 c ≡ true → is_utf8 (blank_content c) ≡ true
  unfolding valid_string
  blank-valid c h = ground arith

  read_row-blank :
      (r : Row Cipher) (c : Content) (nonce : Nonce)
      → read_content codec room r ≡ ok c
      → read_row codec room (record r {
        payload = seal nonce (marshal_content (blank_content c)) (aad codec room r.id r.created_at);
      })
        ≡ ok (message_of r.id r.created_at (blank_content c))
  unfolding read_row read_content
  read_row-blank r c nonce e = rw (
    unseal-seal nonce (marshal_content (blank_content c)) (aad codec room r.id r.created_at),
    unmarshal-marshal (blank_content c) (blank-valid c (read_content-valid r c e)),
  )

  module _ (r : Row Cipher) (c : Content) (nonce : Nonce)
      (reads : read_content codec room r ≡ ok c) where
    abbrev pub payload : Cipher
    payload = seal nonce (marshal_content (blank_content c)) (aad codec room r.id r.created_at)

    blank_message :
        (m : Message)
        → read_row codec room r ≡ ok m
        → message_of r.id r.created_at (blank_content c) ≡ blank r.id m
    unfolding read_row
    blank_message m e = ground arith

    blank_row :
        (x : Row Cipher) (m : Message)
        → x ≡ r
        → read_row codec room x ≡ ok m
        → read_row codec room (record x { payload = payload }) ≡ ok (blank r.id m)
    blank_row x m e h =
        subst (λ y. read_row codec room (record y { payload = payload }) ≡ ok (blank r.id m))
          (sym e)
          (read_row-blank r c nonce reads
            ∙ ap ok (blank_message m (subst (λ y. read_row codec room y ≡ ok m) e h)))

    pub update-same_room :
        (rows : List (Row Cipher)) (ms : List Message)
        → All (λ x. hits room r.id x ≡ true → x ≡ r) rows
        → Reads codec room (filter (is_in room) rows) ms
        → Reads codec room
            (filter (is_in room) (update_payload room r.id payload rows))
            (map (blank r.id) ms)
    unfolding update_payload
    update-same_room [] [] only h = tt
    update-same_room [] (m ∷ ms) only h = absurd h
    update-same_room (x ∷ rows) ms only h = elim (Bool-cases (is_in room x)) [
      | inl inside ↦
          let (m, rest, split, head, tail) =
            Reads-cons codec room x (filter (is_in room) rows) ms (rw inside at h) in
          let later = update-same_room rows rest only.1 tail in
          elim (Bool-cases (x.id == r.id)) [
            | inl hit ↦
                rw (split, inside, hit, inside) (blank_row x m (only.0 (ground arith)) head, later)
            | inr miss ↦
                rw (split, inside, miss, inside)
                  (head ∙ ap ok (ground (arith, Reads-id codec room x m head)), later)
          ]
      | inr out ↦ rw (out, out) (update-same_room rows ms only.1 (rw out at h))
    ]

    not_here :
        (other : Text) (x : Row Cipher)
        → text_eq room other ≡ false
        → is_in other x ≡ true
        → is_in room x ≡ false
    not_here other x apart inside =
        ground
          (arith, text_eq_iff x.room_id other, text_eq_iff x.room_id room, text_eq_iff room other)

    pub update-other_room :
        (other : Text) (rows : List (Row Cipher)) (ms : List Message)
        → text_eq room other ≡ false
        → Reads codec other (filter (is_in other) rows) ms
        → Reads codec other (filter (is_in other) (update_payload room r.id payload rows)) ms
    unfolding update_payload
    update-other_room other [] ms apart h = h
    update-other_room other (x ∷ rows) ms apart h = elim (Bool-cases (is_in other x)) [
      | inl inside ↦
          let (m, rest, split, head, tail) =
            Reads-cons codec other x (filter (is_in other) rows) ms (rw inside at h) in
          let later = update-other_room other rows rest apart tail in
          rw (split, not_here other x apart inside, inside) (head, later)
      | inr out ↦
          let later = update-other_room other rows ms apart (rw out at h) in
          elim (Bool-cases (is_in room x && x.id == r.id)) [
            | inl hit ↦ rw (hit, out) later
            | inr miss ↦ rw (miss, out) later
          ]
    ]
