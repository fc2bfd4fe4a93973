-- ===== src/Store.antt =====
-- internal/store: the plain store of a server with one room. As in `SecureStore`, a call of the
-- database fails where `fails` says so, and the table is in the order of the ids.
use spacechat.Prelude.{
  ℕ, suc, max, Bool, false, List, [], ◌∷◌, ◌++◌, Text, length, if◌then◌else◌, Result, ok, err, ◌>>◌,
  refuse,
}
use spacechat.Prelude.Int.{ℤ}
use spacechat.Protocol.Frames.{Message, Page, at}
use spacechat.Pages.{query, finish, is_ascending}

pub data StoreError : Type 0 where
  database : StoreError

pub record Store : Type 0 where
  pub messages : List Message
  pub next_id : ℕ
  pub instance : Text

abbrev Fails : Type 0
Fails = ℕ → Bool

max_id : List Message → ℕ
max_id [] = 0
max_id (m ∷ ms) = max m.id (max_id ms)

-- `Store.LatestID`
unfoldable pub latest_id : Fails → Store → Result StoreError ℕ
unfolding max_id
latest_id fails s = do refuse (fails 0) database; ok (max_id s.messages)

-- `Store.Append`. Its columns hold no owner, mentions or recall. The insertion is no transaction: if
-- its number cannot be read, the message stays.
unfoldable pub append : Text → Text → ℕ → Fails → Store → Result StoreError Message × Store
append name body now fails s =
    let m : Message = record {
      id = s.next_id;
      nickname = name;
      body = body;
      created_at = at now;
      mentions = [];
      recalled = false;
      can_recall = false;
      owner_id = [];
    } in
    let s' = record s { messages = s.messages ++ m ∷ []; next_id = suc s.next_id } in
    if fails 0 then (err database, s) else if fails 1 then (err database, s') else (ok m, s')

-- `Store.Page`
unfoldable pub page : ℤ → ℤ → ℕ → Fails → Store → Result StoreError Page
page before after through fails s = do
  refuse (fails 0) database
  let found = query (λ (m : Message). m.id) before after through s.messages
  refuse (fails 1) database
  ok (finish (is_ascending before after) through found)

-- `Store.Clear`: the number of messages that it deleted, beside the new state.
unfoldable pub clear : Text → Fails → Store → Result StoreError (ℕ × Store)
clear fresh fails s = do
  refuse (fails 0) database
  refuse (fails 1) database
  refuse (fails 2) database
  refuse (fails 3) database
  refuse (fails 4) database
  ok (length s.messages, record s { messages = []; instance = fresh })
