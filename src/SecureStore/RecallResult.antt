-- ===== src/SecureStore/RecallResult.antt =====
-- What `Recall` answers, and what the rooms show afterwards.
use spacechat.Prelude.{
  ℕ, ◌+◌, ◌≤◌, ◌≡◌, ap, ◌∙◌, sym, ◌≢◌, ◌⊎◌, true, false, List, [], ◌∷◌, ◌++◌, map, some, arith,
  Text, text_eq, text_eq_iff, text_eq_refl, if◌then◌else◌, ok, Bool-cases, inl, inr, Option-cases,
  Result-cases, All, subst,
}
use spacechat.Prelude.Int.{pos}
use spacechat.Protocol.Frames.{Message, parse_time, recall_window}
use spacechat.SecureStore.Sealing.{Codec, Content}
use spacechat.SecureStore.{
  Row, Store, Fails, read_content, read_row, message_of, find_row, erase, recall, recalled_message,
}
use spacechat.SecureStore.Reading.{Shows}
use spacechat.SecureStore.Append.{Rising}
use spacechat.Prelude.TextMap.{find-put}
use spacechat.SecureStore.{instance_id}
use spacechat.Pages.{message_at}
use spacechat.SecureStore.Recall.{
  hits, blank, hits_unique, find_row-hits, find_row-Shows, update-same_room, update-other_room,
}

module _ (codec : Codec) (room : Text) where
  open codec use {Cipher, Nonce}

  read_row-content :
      (r : Row Cipher) (c : Content) (old : Message)
      → read_content codec room r ≡ ok c
      → read_row codec room r ≡ ok old
      → old ≡ message_of r.id r.created_at c
  unfolding read_row
  read_row-content r c old h k = ground arith

  module _ (id now : ℕ) (owner epoch : Text) (nonce : Nonce) (fails : Fails) (s : Store Cipher)
      (m : Message) (s' : Store Cipher)
      (done : recall codec room (pos id) owner now epoch nonce fails s ≡ ok (m, s')) where
    recall_found :
        (r : Row Cipher) × (c : Content) × (find_row room id s.tables.messages ≡ some r)
        × (read_content codec room r ≡ ok c)
    unfolding recall
    recall_found = elim (Option-cases (find_row room id s.tables.messages)) [
      | inl absent ↦ absurd (ground arith)
      | inr (r, found) ↦ elim (Result-cases (read_content codec room r)) [
        | inl (c, reads) ↦ (r, c, found, reads)
        | inr (e, shut) ↦ absurd (ground arith)
      ]
    ]

    module _ (r : Row Cipher) (c : Content) (found : find_row room id s.tables.messages ≡ some r)
        (reads : read_content codec room r ≡ ok c) where
      recall_owner : (owner ≢ []) × (c.owner_id ≡ owner) × (m ≡ recalled_message r c)
      unfolding recall
      recall_owner = ground (arith, text_eq_iff owner [], text_eq_iff c.owner_id owner)

      recall_again : c.recalled ≡ true → s' ≡ s
      unfolding recall
      recall_again again = ground arith

      recall_first :
          c.recalled ≡ false
          → (created : ℕ) × (parse_time r.created_at ≡ some created)
            × (now ≤ created + recall_window)
            × (s' ≡ erase codec room r c epoch nonce s)
      unfolding recall
      recall_first first = elim (Option-cases (parse_time r.created_at)) [
        | inl bad ↦ absurd (ground arith)
        | inr (created, time) ↦ (created, time, ground arith, ground arith)
      ]

      found_id : r.id ≡ id
      found_id = ground (arith, find_row-hits room id s.tables.messages r found)

      -- What a recall leaves, seen from its room and from another.
      erase_here :
          Rising 0 s.tables.messages s.tables.next_id
          → (ms : List Message) → Shows codec room s ms
          → Shows codec room (erase codec room r c epoch nonce s) (map (blank id) ms)
      unfolding erase
      erase_here rising ms shown =
          let only =
            subst (λ k. All (λ x. hits room k x ≡ true → x ≡ r) s.tables.messages) (sym found_id)
              (hits_unique room id 0 s.tables.next_id s.tables.messages r rising found) in
          subst (λ k. Shows codec room (erase codec room r c epoch nonce s) (map (blank k) ms))
            found_id (update-same_room codec room r c nonce reads s.tables.messages ms only shown)

      erase_there :
          (other : Text) (ms : List Message)
          → text_eq room other ≡ false
          → Shows codec other s ms
          → Shows codec other (erase codec room r c epoch nonce s) ms
      unfolding erase
      erase_there other ms = update-other_room codec room r c nonce reads other s.tables.messages ms

      erase-Shows :
          Rising 0 s.tables.messages s.tables.next_id
          → (other : Text) (ms : List Message) → Shows codec other s ms
          → Shows codec other
              (erase codec room r c epoch nonce s)
              (if text_eq room other then map (blank id) ms else ms)
      erase-Shows rising other ms shown = elim (Bool-cases (text_eq room other)) [
        | inl same ↦ rw same (
            subst
              (λ o.
                Shows codec o s ms
                → Shows codec o (erase codec room r c epoch nonce s) (map (blank id) ms))
              ((text_eq_iff room other).0 same) (erase_here rising ms) shown)
        | inr apart ↦ rw apart (erase_there other ms apart shown)
      ]

      instance_id-erase :
          instance_id room (erase codec room r c epoch nonce s)
          ≡ s.instance ++ b':' ∷ (room ++ b':' ∷ epoch)
      unfolding erase instance_id
      instance_id-erase = rw (find-put room room epoch s.epochs, text_eq_refl room)

    -- If the numbers lie in order and the room can be read, a recall that is granted found the message in
    -- the room, and its owner asked. If it was recalled before, nothing
    -- changes. Otherwise it was sent at most two minutes ago, and afterwards its room shows it
    -- without body and mentions, every other message and room stays as it was, and the room has a
    -- new instance, that of the epoch.
    pub recall-Shows :
        Rising 0 s.tables.messages s.tables.next_id
        → (ms : List Message) → Shows codec room s ms
        → (old : Message) × (message_at id ms ≡ some old)
          × (owner ≢ [])
          × (old.owner_id ≡ owner)
          × (((old.recalled ≡ true) × (s' ≡ s))
              ⊎ ((old.recalled ≡ false)
                  × (created : ℕ) × (parse_time old.created_at ≡ some created)
                  × (now ≤ created + recall_window)
                  × ((other : Text) (os : List Message)
                      → Shows codec other s os
                      → Shows codec other s' (if text_eq room other then map (blank id) os else os))
                  × (instance_id room s' ≡ s.instance ++ b':' ∷ (room ++ b':' ∷ epoch))))
    recall-Shows rising ms shown =
        let (r, c, found, reads) = recall_found in
        let (asked, own, _) = recall_owner r c found reads in
        let (old, at_id, old_reads) =
          find_row-Shows codec room id s.tables.messages ms r shown found in
        let old_is = read_row-content r c old reads old_reads in
        (
          old,
          at_id,
          asked,
          ground arith,
          elim (Bool-cases c.recalled) [
            | inl again ↦ inl (ground arith, recall_again r c found reads again)
            | inr first ↦
                let (created, time, in_window, left) = recall_first r c found reads first in
                inr (
                  ground arith,
                  created,
                  ground arith,
                  in_window,
                  λ other os shows.
                      subst
                        (λ t.
                          Shows codec other t
                            (if text_eq room other then map (blank id) os else os))
                        (sym left) (erase-Shows r c found reads rising other os shows),
                  ap (instance_id room) left ∙ instance_id-erase r c found reads,
                )
          ],
        )
